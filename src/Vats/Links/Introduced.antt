-- ===== src/Vats/Links/Introduced.antt =====
-- ffi/rpc_bridge_generic_vat.cpp: introductions and exchanges change no link but by
-- connecting.
use lean_capnproto.Prelude.{ℕ, ◌+◌, ◌≡◌, refl, Bool, true, false, same, Option, none, some}
use lean_capnproto.Prelude.Exec.Keeps.{Keeps, Keeps-bind, Keeps-pure, Keeps-throw, Keeps-if}
use lean_capnproto.Prelude.Table.{find, assign}
use lean_capnproto.Vats.{
  LeanThirdPartyContact, ContactMessage, VatIo, Vat, Network, new_token, requirement_failed,
  decode_third_party_contact, increment_forward_count, increment_denied_forward_count,
}
use lean_capnproto.Vats.ThirdParty.{
  introduce_to, connect_to_introduced, connect_as, forward_as, require_forwarding, require,
  answer_forward, exchange_for, fulfill_as, can_forward_third_party_to_contact, count_forward,
  forward_third_party_to_contact, get_third_party_exchange, fulfill_exchange, await_third_party,
  drop_token, erase_third_party_exchange, complete_third_party,
}
use lean_capnproto.Vats.Links.{IsLinked, with_vat_after}
use lean_capnproto.Vats.Links.Quiet.{aside-IsLinked, Keeps-with_connection, Keeps-with_vat}
use lean_capnproto.Vats.Links.Connected.{edit_vat-IsLinked, connect_by_vat_id-IsLinked}

module _ (io : VatIo) where
  open io use {Value}

  abbrev Linked : Network io → Type 0
  Linked = IsLinked io

  pub introduce_to-IsLinked : (c d : ℕ) → Keeps Linked (introduce_to io c d)
  unfolding introduce_to new_token
  introduce_to-IsLinked c d = Keeps-with_connection io c _ λ a. Keeps-with_connection io d _ λ b.
      Keeps-with_vat io a.vat _
        λ v. record { after = λ s h. aside-IsLinked io s _ refl refl refl h }

  pub connect_to_introduced-IsLinked :
      (c : ℕ) (contact : ContactMessage) → Keeps Linked (connect_to_introduced io c contact)
  unfolding connect_to_introduced connect_as
  connect_to_introduced-IsLinked c contact = Keeps-with_connection io c _ λ a.
      let decoded = decode_third_party_contact contact in
      Keeps-if (same decoded.sent_by a.partner_name)
        (Keeps-bind (connect_by_vat_id-IsLinked io a.vat decoded.path)
          λ connected. Keeps-pure (decoded.token, connected))
        (Keeps-throw requirement_failed)

  answer_forward-IsLinked : (b : Bool) → Keeps Linked (answer_forward io b)
  unfolding answer_forward increment_denied_forward_count
  answer_forward-IsLinked true = Keeps-pure true
  answer_forward-IsLinked false = record { after = λ s h. aside-IsLinked io s _ refl refl refl h }

  pub can_forward-IsLinked : Keeps Linked (can_forward_third_party_to_contact io)
  unfolding can_forward_third_party_to_contact
  can_forward-IsLinked = record {
    after = λ s h. (answer_forward-IsLinked s.forwarding_enabled).after s h;
  }

  require-IsLinked : (b : Bool) → Keeps Linked (require io b)
  unfolding require
  require-IsLinked true = Keeps-pure tt
  require-IsLinked false = Keeps-throw requirement_failed

  require_forwarding-IsLinked : Keeps Linked (require_forwarding io)
  unfolding require_forwarding
  require_forwarding-IsLinked = record {
    after = λ s h. (require-IsLinked s.forwarding_enabled).after s h;
  }

  forward_as-IsLinked :
      (v : ℕ) (contact : LeanThirdPartyContact) → Keeps Linked (forward_as io v contact)
  unfolding forward_as count_forward increment_forward_count
  forward_as-IsLinked v contact =
      Keeps-with_vat io v _ λ a. record { after = λ s h. aside-IsLinked io s _ refl refl refl h }

  pub forward-IsLinked :
      (c : ℕ) (contact : ContactMessage)
      → Keeps Linked (forward_third_party_to_contact io c contact)
  unfolding forward_third_party_to_contact
  forward-IsLinked c contact = Keeps-with_connection io c _ λ a.
      let decoded = decode_third_party_contact contact in
      Keeps-bind require_forwarding-IsLinked λ _.
        Keeps-if (same decoded.sent_by a.partner_name) (forward_as-IsLinked a.vat decoded)
          (Keeps-throw requirement_failed)

  exchange_for-IsLinked :
      (v token : ℕ) (a : Vat io) (s : Network io) (known : Option ℕ)
      → find v s.live_vats ≡ some a
      → Linked s
      → Linked (exchange_for io v token a known s).1
  unfolding exchange_for
  exchange_for-IsLinked v token a s (some exchange) e h = h
  exchange_for-IsLinked v token a s none e h =
      let t = record s {
        exchanges = assign s.next_exchange none s.exchanges;
        next_exchange = s.next_exchange + 1;
      } in
      edit_vat-IsLinked io v t a _ e refl (aside-IsLinked io s t refl refl refl h)

  get_third_party_exchange-IsLinked :
      (v token : ℕ) → Keeps Linked (get_third_party_exchange io v token)
  unfolding get_third_party_exchange
  get_third_party_exchange-IsLinked v token = record {
    after = λ s h.
        with_vat_after io Linked v _ s h
          λ a e. exchange_for-IsLinked v token a s (find token a.tph_exchanges) e h;
  }

  fulfill_as-IsLinked :
      (exchange : ℕ) (value : Value) (old : Option (Option Value))
      → Keeps Linked (fulfill_as io exchange value old)
  unfolding fulfill_as
  fulfill_as-IsLinked exchange value none = Keeps-pure tt
  fulfill_as-IsLinked exchange value (some (some _)) = Keeps-pure tt
  fulfill_as-IsLinked exchange value (some none) = record {
    after = λ s h. aside-IsLinked io s _ refl refl refl h;
  }

  fulfill_exchange-IsLinked :
      (exchange : ℕ) (value : Value) → Keeps Linked (fulfill_exchange io exchange value)
  unfolding fulfill_exchange
  fulfill_exchange-IsLinked exchange value = record {
    after = λ s h. (fulfill_as-IsLinked exchange value (find exchange s.exchanges)).after s h;
  }

  pub await_third_party-IsLinked :
      (c token : ℕ) (value : Value) → Keeps Linked (await_third_party io c token value)
  unfolding await_third_party
  await_third_party-IsLinked c token value = Keeps-with_connection io c _ λ a.
      Keeps-bind (get_third_party_exchange-IsLinked a.vat token) λ exchange.
        Keeps-bind (fulfill_exchange-IsLinked exchange value) λ _. Keeps-pure (a.vat, token)

  pub drop_token-IsLinked : (handle : ℕ × ℕ) → Keeps Linked (drop_token io handle)
  unfolding drop_token erase_third_party_exchange
  drop_token-IsLinked handle = record {
    after = λ s h.
        with_vat_after io Linked handle.0 _ s h λ a e. edit_vat-IsLinked io handle.0 s a _ e refl h;
  }

  pub complete_third_party-IsLinked : (c token : ℕ) → Keeps Linked (complete_third_party io c token)
  unfolding complete_third_party
  complete_third_party-IsLinked c token =
      Keeps-with_connection io c _ λ a. get_third_party_exchange-IsLinked a.vat token
