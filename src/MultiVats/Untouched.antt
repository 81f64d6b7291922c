-- ===== src/MultiVats/Untouched.antt =====
-- ffi/rpc_bridge_runtime.cpp: other restorers and other sturdy refs leave one sturdy ref as it is.
use lean_capnproto.Prelude.{
  ℕ, ◌≡◌, refl, ap, sym, ◌∙◌, arith, false, ◌&&◌, Option, none, some, List, [], ◌∷◌, ◌==◌, same,
  if◌then◌else◌, inl, inr, Bool-cases,
}
use lean_capnproto.Prelude.Exec.Keeps.{Keeps}
use lean_capnproto.Prelude.Table.{find}
use lean_capnproto.Prelude.Dict.{lookup, delete, lookup-delete}
use lean_capnproto.MultiVats.{Systems, HostRefs, Runtime}
use lean_capnproto.MultiVats.SturdyRefs.{
  drop_restorer, multi_vat_set_restorer, multi_vat_clear_restorer, set_refs, publish_target,
  multi_vat_publish_sturdy_ref, put_or_drop,
}
use lean_capnproto.MultiVats.Published.{
  in_refs, published, with_published, published-with_published, published-put_or_drop,
  put_or_drop_peers,
}
use lean_capnproto.MultiVats.Kept.{Held, unmoved, require-Keeps, changed}

same_flip : (a b : List ℕ) → same a b ≡ same b a
same_flip [] [] = refl
same_flip [] (y ∷ b) = refl
same_flip (x ∷ a) [] = refl
same_flip (x ∷ a) (y ∷ b) = ground (arith, same_flip a b)

module _ (systems : Systems) where
  open systems use {rpc}

  module _ (source id : ℕ) (name object : List ℕ) (c : rpc.Client) where
    abbrev pub Safe : Runtime systems → Type 0
    Safe = Held systems source id name object c

    dropped_peers :
        (o : Option ℕ) (s : Runtime systems)
        → (drop_restorer systems o s).multi_vat_peers ≡ s.multi_vat_peers
    unfolding drop_restorer
    dropped_peers none s = refl
    dropped_peers (some r) s = refl

    dropped-Safe : (o : Option ℕ) (s : Runtime systems) → Safe s → Safe (drop_restorer systems o s)
    unfolding drop_restorer published
    dropped-Safe none s h = h
    dropped-Safe (some r) s h = unmoved systems source id name object c s _ refl refl refl h

    pub set_restorer-Keeps :
        (j restorer : ℕ)
        → (id == j) ≡ false
        → Keeps Safe (multi_vat_set_restorer systems j restorer)
    unfolding multi_vat_set_restorer
    set_restorer-Keeps j restorer n = require-Keeps systems source id name object c j _ λ q s e h.
        let o = q.sturdy_ref_restorer in
        changed systems source id name object c j (record q { sturdy_ref_restorer = some restorer })
          q (drop_restorer systems o s) (ap (find j) (dropped_peers o s) ∙ e) refl
          (inl (ground (arith, n))) (dropped-Safe o s h)

    pub clear_restorer-Keeps : (j : ℕ) → Keeps Safe (multi_vat_clear_restorer systems j)
    unfolding multi_vat_clear_restorer
    clear_restorer-Keeps j = require-Keeps systems source id name object c j _ λ q s e h.
        let o = q.sturdy_ref_restorer in
        changed systems source id name object c j (record q { sturdy_ref_restorer = none }) q
          (drop_restorer systems o s) (ap (find j) (dropped_peers o s) ∙ e) refl (inr refl)
          (dropped-Safe o s h)

    published_elsewhere :
        (j : ℕ) (o : List ℕ) (cap : rpc.Client) (s : Runtime systems)
        → (id == j && same object o) ≡ false
        → Safe s
        → Safe (with_published systems j o cap s)
    unfolding set_refs
    published_elsewhere j o cap s apart h =
        unmoved systems source id name object c s _ refl refl
          (ground (
            arith,
            apart,
            published-with_published systems s j o cap id object,
            same_flip o object,
          ))
          h

    target_found-Safe :
        (j : ℕ) (o : List ℕ) (target : ℕ) (cap : Option rpc.Client) (s : Runtime systems)
        → (id == j && same object o) ≡ false
        → Safe s
        → Safe (publish_target systems j o target cap s).1
    unfolding publish_target
    target_found-Safe j o target none s apart h = h
    target_found-Safe j o target (some cap) s apart h = published_elsewhere j o cap s apart h

    pub publish-Keeps :
        (j : ℕ) (o : List ℕ) (target : ℕ)
        → (id == j && same object o) ≡ false
        → Keeps Safe (multi_vat_publish_sturdy_ref systems j o target)
    unfolding multi_vat_publish_sturdy_ref
    publish-Keeps j o target apart =
        require-Keeps systems source id name object c j _
          λ q s e h. target_found-Safe j o target (find target s.targets.targets) s apart h

    -- Another host's sturdy refs, or another object of the host.
    kept_elsewhere :
        (j : ℕ) (o : List ℕ) (refs : HostRefs rpc.Client) (s : Runtime systems)
        → find j s.sturdy_refs ≡ some refs
        → (id == j && same object o) ≡ false
        → (if j == id then lookup object (delete o refs) else published systems s id object)
          ≡ published systems s id object
    unfolding published
    kept_elsewhere j o refs s e apart = elim (Bool-cases (j == id)) [
      | inr b ↦ rw b refl
      | inl b ↦
          let k : id ≡ j = ground (arith, b) in
          let here : find id s.sturdy_refs ≡ some refs =
            ap (λ (i : ℕ). find i s.sturdy_refs) k ∙ e in
          let there : (same o object) ≡ false = ground (arith, apart, k, same_flip o object) in
          rw b (lookup-delete o object refs ∙ rw there (sym (ap (in_refs systems object) here)))
    ]

    pub unpublished_elsewhere :
        (j : ℕ) (o : List ℕ) (refs : HostRefs rpc.Client) (s : Runtime systems)
        → find j s.sturdy_refs ≡ some refs
        → (id == j && same object o) ≡ false
        → Safe s
        → Safe (put_or_drop systems j (delete o refs) s)
    unpublished_elsewhere j o refs s e apart h =
        let (p, n) = put_or_drop_peers systems j (delete o refs) s in
        unmoved systems source id name object c s _ p n
          (published-put_or_drop systems s j (delete o refs) id object
            ∙ kept_elsewhere j o refs s e apart)
          h
