-- ===== src/Vats/Introductions.antt =====
-- ffi/rpc_bridge_generic_vat.cpp: the contact that a vat makes up is understood by those it is for.
use lean_capnproto.Prelude.{
  ℕ, ◌+◌, ◌%◌, ◌^◌, ◌≡◌, refl, sym, ap, ◌∙◌, true, false, Option, same, same_self, c_str,
  c_str_twice, some, List,
}
use lean_capnproto.Prelude.Exec.{Outcome, continue, returns, throws, loops, ◌>>=◌, ◌>>◌}
use lean_capnproto.Prelude.Table.{find}
use lean_capnproto.Vats.{
  VatError, LeanThirdPartyContact, decode_lean_vat_id, set_lean_vat_id, decode_third_party_contact,
  set_third_party_contact, VatIo, Vat, Network, Connection, Op, with_vat, with_connection,
  new_token, increment_forward_count,
}
use lean_capnproto.Vats.Connect.{connect_by_vat_id}
use lean_capnproto.Vats.ThirdParty.{
  introduce_to, connect_as, connect_to_introduced, require_forwarding, require, forward_as,
  forward_third_party_to_contact, count_forward,
}

-- A contact as it comes out at the other end of a message.
unfoldable pub received : LeanThirdPartyContact → LeanThirdPartyContact
received contact = record {
  path = record { host = c_str contact.path.host; unique = contact.path.unique };
  token = contact.token;
  sent_by = c_str contact.sent_by;
}

decode-set_contact :
    (contact : LeanThirdPartyContact)
    → decode_third_party_contact (set_third_party_contact contact) ≡ received contact
unfolding decode_third_party_contact set_third_party_contact decode_lean_vat_id set_lean_vat_id
    received
decode-set_contact contact = rw (c_str_twice contact.path.host, c_str_twice contact.sent_by) refl

module _ (io : VatIo) where
  module _ {A : Type 0} (s : Network io) where
    pub with_connection_found :
        (c : ℕ) (a : Connection io) (f : Connection io → Op io A)
        → find c s.live_connections ≡ some a
        → with_connection io c f s ≡ f a s
    unfolding with_connection
    with_connection_found c a f e = rw (e, with_connection) refl

    pub with_vat_found :
        (v : ℕ) (a : Vat io) (f : Vat io → Op io A)
        → find v s.live_vats ≡ some a
        → with_vat io v f s ≡ f a s
    unfolding with_vat
    with_vat_found v a f e = rw (e, with_vat) refl

  -- A contact that names the partner of the connection it comes over leads to its path.
  connect-set_contact :
      (s : Network io) (c : ℕ) (a : Connection io) (contact : LeanThirdPartyContact)
      → find c s.live_connections ≡ some a
      → c_str contact.sent_by ≡ a.partner_name
      → connect_to_introduced io c (set_third_party_contact contact) s
        ≡ connect_as io a.vat (received contact) s
  unfolding connect_to_introduced received
  connect-set_contact s c a contact e named =
      let ours : same (c_str contact.sent_by) a.partner_name ≡ true =
        ap (same (c_str contact.sent_by)) (sym named) ∙ same_self (c_str contact.sent_by) in
      with_connection_found s c a _ e ∙ rw (decode-set_contact contact, ours) refl

  after_require :
      {A : Type 0} (s : Network io) (next : Op io A)
      → s.forwarding_enabled ≡ true
      → (require_forwarding io >> next) s ≡ next s
  unfolding require_forwarding require
  after_require s next on = ap (λ b. continue (require io b s).0 (λ _. next) (require io b s).1) on

  -- Forwarding such a contact puts the forwarding vat's name in.
  forward-set_contact :
      (s : Network io) (c : ℕ) (a : Connection io) (vat : Vat io) (contact : LeanThirdPartyContact)
      → find c s.live_connections ≡ some a
      → find a.vat s.live_vats ≡ some vat
      → s.forwarding_enabled ≡ true
      → c_str contact.sent_by ≡ a.partner_name
      → forward_third_party_to_contact io c (set_third_party_contact contact) s ≡ (
        returns (set_third_party_contact (record (received contact) { sent_by = vat.name })),
        increment_forward_count io s,
      )
  unfolding forward_third_party_to_contact received require_forwarding forward_as count_forward
  forward-set_contact s c a vat contact e f on named =
      let ours : same (c_str contact.sent_by) a.partner_name ≡ true =
        ap (same (c_str contact.sent_by)) (sym named) ∙ same_self (c_str contact.sent_by) in
      with_connection_found s c a _ e
      ∙ rw (decode-set_contact contact, ours)
          (after_require s (forward_as io a.vat (received contact)) on
            ∙ with_vat_found s a.vat vat _ f)

  -- The contact of an introduction.
  abbrev introduction : Network io → Vat io → Connection io → LeanThirdPartyContact
  introduction s vat target = record {
    path = record { host = target.partner_name; unique = false };
    token = (s.token_counter + 1) % 2 ^ 64;
    sent_by = vat.name;
  }

  introduce_found :
      (s : Network io) (c d : ℕ) (a b : Connection io) (vat : Vat io)
      → find c s.live_connections ≡ some a
      → find d s.live_connections ≡ some b
      → find a.vat s.live_vats ≡ some vat
      → introduce_to io c d s ≡ (
        returns (set_third_party_contact (introduction s vat b), (s.token_counter + 1) % 2 ^ 64),
        record s { token_counter = (s.token_counter + 1) % 2 ^ 64 },
      )
  unfolding introduce_to new_token
  introduce_found s c d a b vat e f g =
      with_connection_found s c a _ e
      ∙ with_connection_found s d b _ f
      ∙ with_vat_found s a.vat vat _ g

  connect_as_plain :
      (v : ℕ) (contact : LeanThirdPartyContact) (sent_by : List ℕ)
      → c_str contact.path.host ≡ contact.path.host
      → connect_as io v (received (record (received contact) { sent_by = sent_by }))
        ≡ connect_as io v contact
  unfolding connect_as received
  connect_as_plain v contact sent_by plain = rw (c_str_twice contact.path.host, plain) refl

  connect_as_received :
      (v : ℕ) (contact : LeanThirdPartyContact)
      → c_str contact.path.host ≡ contact.path.host
      → connect_as io v (received contact) ≡ connect_as io v contact
  unfolding connect_as received
  connect_as_received v contact plain = rw plain refl

  -- The outcome of connecting, with a token for the completion beside the connection.
  abbrev with_token :
      ℕ
      → Outcome (VatError io) (Option ℕ) × Network io
      → Outcome (VatError io) (ℕ × Option ℕ) × Network io
  with_token token (returns connected, s) = (returns (token, connected), s)
  with_token token (throws e, s) = (throws e, s)
  with_token token (loops, s) = (loops, s)

  continue-with_token :
      (token : ℕ) (r : Outcome (VatError io) (Option ℕ) × Network io)
      → continue r.0 (λ (c : Option ℕ) (s : Network io). (returns (token, c), s)) r.1
        ≡ with_token token r
  continue-with_token token (returns c, s) = refl
  continue-with_token token (throws e, s) = refl
  continue-with_token token (loops, s) = refl

  connect_as-with_token :
      (v : ℕ) (contact : LeanThirdPartyContact) (s : Network io)
      → connect_as io v contact s ≡ with_token contact.token (connect_by_vat_id io v contact.path s)
  unfolding connect_as
  connect_as-with_token v contact s =
      continue-with_token contact.token (connect_by_vat_id io v contact.path s)

  -- What the receiver of a contact does with it, if it comes straight from the vat that made it up or
  -- by way of another vat: it connects to the contact's path, with the contact's token.
  abbrev Leads :
      Network io → LeanThirdPartyContact → ℕ → ℕ → ℕ → Connection io → Connection io → Type 0
  Leads s contact near via far near_end far_end =
      (connect_to_introduced io near (set_third_party_contact contact) s
        ≡ with_token contact.token (connect_by_vat_id io near_end.vat contact.path s))
      × ((forward_third_party_to_contact io via (set_third_party_contact contact)
              >>= connect_to_introduced io far)
            s
          ≡ with_token contact.token
              (connect_by_vat_id io far_end.vat contact.path (increment_forward_count io s)))

  contact-Leads :
      (s : Network io) (contact : LeanThirdPartyContact) (near via far : ℕ)
      → (near_end via_end far_end : Connection io) (hub : Vat io)
      → find near s.live_connections ≡ some near_end
      → find via s.live_connections ≡ some via_end
      → find far s.live_connections ≡ some far_end
      → find via_end.vat s.live_vats ≡ some hub
      → s.forwarding_enabled ≡ true
      → c_str contact.path.host ≡ contact.path.host
      → c_str contact.sent_by ≡ near_end.partner_name
      → c_str contact.sent_by ≡ via_end.partner_name
      → c_str hub.name ≡ far_end.partner_name
      → Leads s contact near via far near_end far_end
  unfolding increment_forward_count
  contact-Leads s contact near via far near_end via_end far_end hub e f g h on plain ours theirs
        last =
      (
        connect-set_contact s near near_end contact e ours
            ∙ ap (λ m. m s) (connect_as_received near_end.vat contact plain)
            ∙ connect_as-with_token near_end.vat contact s,
        ap (λ r. continue r.0 (connect_to_introduced io far) r.1)
              (forward-set_contact s via via_end hub contact f h on theirs)
            ∙ connect-set_contact (increment_forward_count io s) far far_end
                (record (received contact) { sent_by = hub.name }) g last
            ∙ ap (λ m. m (increment_forward_count io s))
                (connect_as_plain far_end.vat contact hub.name plain)
            ∙ connect_as-with_token far_end.vat contact (increment_forward_count io s),
      )

  -- The contact of an introduction, and what it leads to.
  abbrev pub Introduced :
      Network io
      → ℕ
      → ℕ
      → ℕ
      → ℕ
      → ℕ
      → Vat io
      → Connection io
      → Connection io
      → Connection io
      → Type 0
  Introduced s c d near via far vat target near_end far_end =
      let token = (s.token_counter + 1) % 2 ^ 64 in
      let s1 = record s { token_counter = token } in
      let contact = introduction s vat target in
      (introduce_to io c d s ≡ (returns (set_third_party_contact contact, token), s1))
      × Leads s1 contact near via far near_end far_end

  -- Where the forwarding of contacts is enabled: when a vat introduces the peer of its connection `c`
  -- to that of its connection `d`, it is told to wait for the next token. The contact that it makes up
  -- has the peer do, over a connection whose partner is that vat, what it does to connect by a plain
  -- vat id with the name that `d` ends at, with the same outcome and beside the connection the same
  -- token as its completion. If the peer (a vat `hub`) forwards the contact instead, one more forward
  -- is counted and the contact has the next vat, over its connection to the hub, connect to that name
  -- with that token. The names of the three vats have no NUL character.
  pub introduce_to-Introduced :
      (s : Network io) (c d near via far : ℕ)
      → (a target near_end via_end far_end : Connection io) (vat hub : Vat io)
      → find c s.live_connections ≡ some a
      → find d s.live_connections ≡ some target
      → find a.vat s.live_vats ≡ some vat
      → find near s.live_connections ≡ some near_end
      → find via s.live_connections ≡ some via_end
      → find far s.live_connections ≡ some far_end
      → find via_end.vat s.live_vats ≡ some hub
      → s.forwarding_enabled ≡ true
      → c_str target.partner_name ≡ target.partner_name
      → c_str vat.name ≡ near_end.partner_name
      → c_str vat.name ≡ via_end.partner_name
      → c_str hub.name ≡ far_end.partner_name
      → Introduced s c d near via far vat target near_end far_end
  introduce_to-Introduced s c d near via far a target near_end via_end far_end vat hub ha hd hv hn
        hi hf hh on plain ours theirs last =
      (
        introduce_found s c d a target vat ha hd hv,
        contact-Leads (record s { token_counter = (s.token_counter + 1) % 2 ^ 64 })
            (introduction s vat target) near via far near_end via_end far_end hub hn hi hf hh on
            plain ours theirs last,
      )
