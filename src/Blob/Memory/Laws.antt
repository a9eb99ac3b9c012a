-- ===== src/Blob/Memory/Laws.antt =====
-- The in-memory blob store: what `put` and `delete` do to `get`, and the digests of its blobs.
use ferro_protocols.Prelude.{
  ◌≡◌, sym, ap, ◌∙◌, ◌↔◌, ◌≢◌, true, false, Bytes, arith, Bool-cases, inl, inr,
}
use ferro_protocols.Prelude.Result.{Result, ok, err}
use ferro_protocols.Prelude.Maps.{
  lookup, insert, remove, lookup-insert_same, lookup-insert_other, lookup-remove_same,
  lookup-remove_other,
}
use ferro_protocols.Prelude.Texts.{text_eq_iff}
use ferro_protocols.Blob.Digest.{Digest, Hasher, digest_eq, to_string}
use ferro_protocols.Blob.Memory.{Store, not_found, computed, put, found, get, delete}

pub digest_eq_iff : (a b : Digest) → (digest_eq a b ≡ true) ↔ (a ≡ b)
unfolding digest_eq
digest_eq_iff a b = ground (arith, text_eq_iff a.hex b.hex)

eq_false : (a b : Digest) → a ≢ b → digest_eq a b ≡ false
eq_false a b n = elim (Bool-cases (digest_eq a b)) [
  | inl e ↦ absurd (n ((digest_eq_iff a b).0 e))
  | inr e ↦ e
]

pub not_eq : (a b : Digest) → digest_eq a b ≡ false → a ≢ b
not_eq a b q e = absurd (ground (arith, digest_eq_iff a b))

put_parts :
    (h : Hasher) (d : Digest) (bytes : Bytes) (s s' : Store)
    → put h d bytes s ≡ ok s'
    → (computed h d.algo bytes ≡ d) × (s' ≡ insert digest_eq d bytes s)
unfolding put
put_parts h d bytes s s' e = ground (arith, digest_eq_iff (computed h d.algo bytes) d)

-- `put` refuses the bytes, or the digest is that of the bytes and afterwards `get` returns them
-- and every other digest is read as before.
pub get-put :
    (h : Hasher) (d : Digest) (bytes : Bytes) (s s' : Store)
    → put h d bytes s ≡ ok s'
    → (computed h d.algo bytes ≡ d)
      × ((get d s' ≡ ok bytes) × ((i : Digest) → i ≢ d → get i s' ≡ get i s))
unfolding get
get-put h d bytes s s' e =
    let (same, es) = put_parts h d bytes s s' e in
    (
      same,
      (
        ap (λ w. found d (lookup digest_eq d w)) es
            ∙ ap (found d) (lookup-insert_same digest_eq digest_eq_iff d bytes s),
        λ i n.
            ap (λ w. found i (lookup digest_eq i w)) es
            ∙ ap (found i)
                (lookup-insert_other digest_eq digest_eq_iff d i bytes s (eq_false i d n)),
      ),
    )

-- After `delete`, the digest is not found and every other digest is read as before.
pub get-delete :
    (d : Digest) (s s' : Store)
    → delete d s ≡ ok s'
    → (get d s' ≡ err (not_found (to_string d))) × ((i : Digest) → i ≢ d → get i s' ≡ get i s)
unfolding delete get
get-delete d s s' e =
    let es : remove digest_eq d s ≡ s' = ground arith in
    (
      ap (λ w. found d (lookup digest_eq d w)) (sym es)
          ∙ ap (found d) (lookup-remove_same digest_eq digest_eq_iff d s),
      λ i n.
          ap (λ w. found i (lookup digest_eq i w)) (sym es)
          ∙ ap (found i) (lookup-remove_other digest_eq digest_eq_iff d i s (eq_false i d n)),
    )

-- Every blob is kept under its own digest.
abbrev pub IsAddressed : Hasher → Store → Type 0
IsAddressed h s = (d : Digest) (bytes : Bytes) → get d s ≡ ok bytes → computed h d.algo bytes ≡ d
