-- ===== src/Vats/Meetings.antt =====
-- ffi/rpc_bridge_generic_vat.cpp: two ends that know the same token meet, whichever of them is first.
use lean_capnproto.Prelude.{ℕ, ◌+◌, ◌≡◌, refl, ap, ◌∙◌, arith, none, some}
use lean_capnproto.Prelude.Exec.{continue, returns, pure, ◌>>◌}
use lean_capnproto.Prelude.Table.{find, assign, find-assign}
use lean_capnproto.Vats.{VatIo, Vat, Network, Connection, Op, set_vat}
use lean_capnproto.Vats.ThirdParty.{
  exchange_for, get_third_party_exchange, fulfill_as, fulfill_exchange, await_third_party,
  complete_third_party,
}
use lean_capnproto.Vats.Introductions.{with_connection_found, with_vat_found}

module _ (io : VatIo) where
  open io use {Value}

  -- The network with a new exchange for the token.
  abbrev opened : ℕ → ℕ → Vat io → Network io → Network io
  opened v token vat s =
      set_vat io v (record vat { tph_exchanges = assign token s.next_exchange vat.tph_exchanges })
        (record s {
          exchanges = assign s.next_exchange none s.exchanges;
          next_exchange = s.next_exchange + 1;
        })

  abbrev fulfilled_with : ℕ → Value → Network io → Network io
  fulfilled_with x value s = record s { exchanges = assign x (some value) s.exchanges }

  module _ (s : Network io) (v token : ℕ) (vat : Vat io)
      (found : find v s.live_vats ≡ some vat) where
    get_new :
        find token vat.tph_exchanges ≡ none
        → get_third_party_exchange io v token s ≡ (returns s.next_exchange, opened v token vat s)
    unfolding get_third_party_exchange exchange_for
    get_new e = with_vat_found io s v vat _ found ∙ ap (λ x. exchange_for io v token vat x s) e

    get_old :
        (x : ℕ)
        → find token vat.tph_exchanges ≡ some x
        → get_third_party_exchange io v token s ≡ (returns x, s)
    unfolding get_third_party_exchange exchange_for
    get_old x e = with_vat_found io s v vat _ found ∙ ap (λ x. exchange_for io v token vat x s) e

  -- The second look finds what the first has made.
  get_again :
      (s t : Network io) (v token : ℕ) (vat : Vat io)
      → t.live_vats ≡ (opened v token vat s).live_vats
      → get_third_party_exchange io v token t ≡ (returns s.next_exchange, t)
  unfolding set_vat
  get_again s t v token vat same_vats =
      let with_exchange = record vat {
        tph_exchanges = assign token s.next_exchange vat.tph_exchanges;
      } in
      let found : find v (assign v with_exchange s.live_vats) ≡ some with_exchange =
        ground (arith, find-assign v v with_exchange s.live_vats) in
      get_old t v token with_exchange (ap (find v) same_vats ∙ found) s.next_exchange
        (ground (arith, find-assign token token s.next_exchange vat.tph_exchanges))

  fulfill_new :
      (s : Network io) (x : ℕ) (value : Value)
      → find x s.exchanges ≡ some none
      → fulfill_exchange io x value s ≡ (returns tt, fulfilled_with x value s)
  unfolding fulfill_exchange fulfill_as
  fulfill_new s x value e = ap (λ o. fulfill_as io x value o s) e

  -- How the value is awaited, from the connection on.
  await_found :
      (s : Network io) (c token x : ℕ) (value : Value) (a : Connection io) (t : Network io)
      → find c s.live_connections ≡ some a
      → get_third_party_exchange io a.vat token s ≡ (returns x, t)
      → find x t.exchanges ≡ some none
      → await_third_party io c token value s ≡ (returns (a.vat, token), fulfilled_with x value t)
  unfolding await_third_party
  await_found s c token x value a t e f g =
      let rest : ℕ → Op io (ℕ × ℕ) = λ y. fulfill_exchange io y value >> pure (a.vat, token) in
      with_connection_found io s c a _ e
      ∙ ap (λ r. continue r.0 rest r.1) f
      ∙ ap (λ r. continue r.0 (λ _. pure (a.vat, token)) r.1) (fulfill_new t x value g)

  complete_found :
      (s : Network io) (d token v : ℕ) (b : Connection io)
      → find d s.live_connections ≡ some b
      → b.vat ≡ v
      → complete_third_party io d token s ≡ get_third_party_exchange io v token s
  unfolding complete_third_party
  complete_found s d token v b e same_vat =
      with_connection_found io s d b _ e ∙ ap (λ w. get_third_party_exchange io w token s) same_vat

  abbrev pub Meets : Network io → ℕ → ℕ → ℕ → Value → Type 0
  Meets s c d token value =
      let awaited = await_third_party io c token value s in
      let completed = complete_third_party io d token s in
      let x = s.next_exchange in
      ((complete_third_party io d token awaited.1).0 ≡ returns x)
      × (find x (complete_third_party io d token awaited.1).1.exchanges ≡ some (some value))
      × (completed.0 ≡ returns x)
      × (find x (await_third_party io c token value completed.1).1.exchanges ≡ some (some value))

  -- On two connections of one vat, which has no exchange for the token yet: the promise of an exchange
  -- that completing the token returns is fulfilled with the value that is awaited under the token,
  -- whether the value is awaited before the token is completed or after it.
  pub await_third_party-Meets :
      (s : Network io) (c d token : ℕ) (value : Value) (a b : Connection io) (vat : Vat io)
      → find c s.live_connections ≡ some a
      → find d s.live_connections ≡ some b
      → b.vat ≡ a.vat
      → find a.vat s.live_vats ≡ some vat
      → find token vat.tph_exchanges ≡ none
      → Meets s c d token value
  unfolding set_vat
  await_third_party-Meets s c d token value a b vat e f same_vat g none_yet =
      let x = s.next_exchange in
      let t = opened a.vat token vat s in
      let fresh : find x t.exchanges ≡ some none =
        ground (arith, find-assign x x none s.exchanges) in
      let set : find x (assign x (some value) t.exchanges) ≡ some (some value) =
        ground (arith, find-assign x x (some value) t.exchanges) in
      let made = get_new s a.vat token vat g none_yet in
      let awaited = await_found s c token x value a t e made fresh in
      let completed = complete_found s d token a.vat b f same_vat ∙ made in
      let later =
        complete_found (fulfilled_with x value t) d token a.vat b f same_vat
        ∙ get_again s (fulfilled_with x value t) a.vat token vat refl in
      let after = await_found t c token x value a t e (get_again s t a.vat token vat refl) fresh in
      (
        ap (λ r. (complete_third_party io d token r.1).0) awaited ∙ ap (λ r. r.0) later,
        ap (λ r. find x (complete_third_party io d token r.1).1.exchanges) awaited
            ∙ ap (λ r. find x r.1.exchanges) later
            ∙ set,
        ap (λ r. r.0) completed,
        ap (λ r. find x (await_third_party io c token value r.1).1.exchanges) completed
            ∙ ap (λ r. find x r.1.exchanges) after
            ∙ set,
      )
