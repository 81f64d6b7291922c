-- ===== src/Vats/ThirdParty.antt =====
-- ffi/rpc_bridge_generic_vat.cpp: how one vat introduces two of its partners to each other. The
-- contact that one end is given carries a token, and the ends meet under it.
use lean_capnproto.Prelude.{
  ℕ, ◌+◌, ◌/◌, ◌%◌, ◌^◌, Bool, true, false, Option, none, some, List, [], ◌∷◌, same, if◌then◌else◌,
}
use lean_capnproto.Prelude.Exec.{returns, pure, throw, ◌>>=◌, ◌>>◌}
use lean_capnproto.Prelude.Table.{find, assign, erase}
use lean_capnproto.Vats.{
  ContactMessage, LeanThirdPartyContact, decode_third_party_contact, set_third_party_contact, VatIo,
  Vat, Op, requirement_failed, with_vat, with_connection, set_vat, new_token,
  increment_forward_count, increment_denied_forward_count,
}
use lean_capnproto.Vats.Connect.{connect_by_vat_id}

module _ (io : VatIo) where
  open io use {Value}

  abbrev can_introduce_to : ℕ → ℕ → Bool
  can_introduce_to c destination = true

  -- The contact for the other end, and the token that this end is to wait for.
  unfoldable pub introduce_to : ℕ → ℕ → Op io (ContactMessage × ℕ)
  introduce_to c destination = with_connection io c λ connection.
      with_connection io destination λ target. with_vat io connection.vat λ vat. do
        token ← new_token io
        pure (
          set_third_party_contact (record {
            path = record { host = target.partner_name; unique = false };
            token = token;
            sent_by = vat.name;
          }),
          token,
        )

  unfoldable pub connect_as : ℕ → LeanThirdPartyContact → Op io (ℕ × Option ℕ)
  connect_as v contact = do
    connected ← connect_by_vat_id io v contact.path
    pure (contact.token, connected)

  -- The contact must come from this connection's partner. The completion carries its token.
  unfoldable pub connect_to_introduced : ℕ → ContactMessage → Op io (ℕ × Option ℕ)
  connect_to_introduced c contact = with_connection io c λ connection.
      let decoded = decode_third_party_contact contact in
      if same decoded.sent_by connection.partner_name
      then connect_as connection.vat decoded
      else throw requirement_failed

  unfoldable pub answer_forward : Bool → Op io Bool
  answer_forward true s = (returns true, s)
  answer_forward false s = (returns false, increment_denied_forward_count io s)

  unfoldable pub can_forward_third_party_to_contact : Op io Bool
  unfolding answer_forward
  can_forward_third_party_to_contact s = answer_forward s.forwarding_enabled s

  unfoldable pub count_forward : Op io (Unit {0})
  count_forward s = (returns tt, increment_forward_count io s)

  -- `KJ_REQUIRE`
  unfoldable pub require : Bool → Op io (Unit {0})
  require true = pure tt
  require false = throw requirement_failed

  unfoldable pub require_forwarding : Op io (Unit {0})
  unfolding require
  require_forwarding s = require s.forwarding_enabled s

  -- The contact goes on under the name of the vat that forwards it.
  unfoldable pub forward_as : ℕ → LeanThirdPartyContact → Op io ContactMessage
  forward_as v contact = with_vat io v λ vat. do
    count_forward
    pure (set_third_party_contact (record contact { sent_by = vat.name }))

  unfoldable pub forward_third_party_to_contact : ℕ → ContactMessage → Op io ContactMessage
  unfolding forward_as
  forward_third_party_to_contact c contact = with_connection io c λ connection.
      let decoded = decode_third_party_contact contact in
      require_forwarding
      >> (if same decoded.sent_by connection.partner_name
          then forward_as connection.vat decoded
          else throw requirement_failed)

  -- The exchange for a token is made when it is first asked for.
  unfoldable pub exchange_for : ℕ → ℕ → Vat io → Option ℕ → Op io ℕ
  unfolding set_vat
  exchange_for v token vat (some exchange) s = (returns exchange, s)
  exchange_for v token vat none s = (
    returns s.next_exchange,
    set_vat io v (record vat { tph_exchanges = assign token s.next_exchange vat.tph_exchanges })
        (record s {
          exchanges = assign s.next_exchange none s.exchanges;
          next_exchange = s.next_exchange + 1;
        }),
  )

  unfoldable pub get_third_party_exchange : ℕ → ℕ → Op io ℕ
  unfolding exchange_for
  get_third_party_exchange v token =
      with_vat io v λ vat. exchange_for v token vat (find token vat.tph_exchanges)

  unfoldable pub erase_third_party_exchange : ℕ → ℕ → Op io (Unit {0})
  erase_third_party_exchange v token = with_vat io v λ vat s.
      (returns tt, set_vat io v (record vat { tph_exchanges = erase token vat.tph_exchanges }) s)

  -- A fulfiller counts once.
  unfoldable pub fulfill_as : ℕ → Value → Option (Option Value) → Op io (Unit {0})
  fulfill_as exchange value (some none) s =
      (returns tt, record s { exchanges = assign exchange (some value) s.exchanges })
  fulfill_as exchange value _ s = (returns tt, s)

  unfoldable pub fulfill_exchange : ℕ → Value → Op io (Unit {0})
  unfolding fulfill_as
  fulfill_exchange exchange value s = fulfill_as exchange value (find exchange s.exchanges) s

  -- The handle that comes back erases the vat's entry for the token when it is dropped.
  unfoldable pub await_third_party : ℕ → ℕ → Value → Op io (ℕ × ℕ)
  await_third_party c token value = with_connection io c λ connection. do
    exchange ← get_third_party_exchange connection.vat token
    fulfill_exchange exchange value
    pure (connection.vat, token)

  unfoldable pub drop_token : ℕ × ℕ → Op io (Unit {0})
  unfolding erase_third_party_exchange
  drop_token handle = erase_third_party_exchange handle.0 handle.1

  -- A branch of the exchange's promise, which is known by the exchange.
  unfoldable pub complete_third_party : ℕ → ℕ → Op io ℕ
  complete_third_party c token =
      with_connection io c λ connection. get_third_party_exchange connection.vat token

  -- The four bytes of a 32-bit counter, the low one first.
  unfoldable pub generate_embargo_id : Op io (List ℕ)
  generate_embargo_id s =
      let n = s.embargo_counter in
      (
        returns (n % 2 ^ 8 ∷ n / 2 ^ 8 % 2 ^ 8 ∷ n / 2 ^ 16 % 2 ^ 8 ∷ n / 2 ^ 24 % 2 ^ 8 ∷ []),
        record s { embargo_counter = (n + 1) % 2 ^ 32 },
      )
