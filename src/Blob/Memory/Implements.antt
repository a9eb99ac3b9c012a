-- ===== src/Blob/Memory/Implements.antt =====
-- The in-memory store is a blob store as the trait's clients need it.
use ferro_protocols.Prelude.{◌≡◌, ◌≢◌, refl, sym, ap, ◌∙◌, Bytes, Bool-cases, inl, inr}
use ferro_protocols.Prelude.Result.{Result, ok, err}
use ferro_protocols.Blob.Digest.{Digest, Hasher, digest_eq}
use ferro_protocols.Blob.Memory.{Store, BlobStoreError, put, get, delete, or_same}
use ferro_protocols.Blob.Memory.Laws.{get-put, get-delete, digest_eq_iff, not_eq}
use ferro_protocols.Blob.Interface.{Held, IsBlobStore, memory, unit_or_error}

put_keeps_lem :
    (h : Hasher) (d i : Digest) (b : Bytes) (s : Store) (r : Result BlobStoreError Store)
    → put h d b s ≡ r
    → Held (memory h) i s
    → Held (memory h) i (or_same s r)
put_keeps_lem h d i b s (err e) q held = held
put_keeps_lem h d i b s (ok t) q (x, g) =
    let (same, (here, others)) = get-put h d b s t q in
    elim (Bool-cases (digest_eq i d)) [
      | inl e ↦ (b, ap (λ j. get j t) ((digest_eq_iff i d).0 e) ∙ here)
      | inr e ↦ (x, others i (not_eq i d e) ∙ g)
    ]

not_ok : {e : BlobStoreError} → ◌≡◌ {A = Result BlobStoreError Unit} (err e) (ok tt) → ⊥
not_ok h = cc

get_put_lem :
    (d : Digest) (b : Bytes) (s s' : Store) (h : Hasher) (r : Result BlobStoreError Store)
    → put h d b s ≡ r
    → ◌≡◌ {A = Result BlobStoreError Unit × Store} (unit_or_error r, or_same s r) (ok tt, s')
    → get d s' ≡ ok b
get_put_lem d b s s' h (ok t) q e = ap (get d) (sym (ap (λ w. w.1) e)) ∙ (get-put h d b s t q).1.0
get_put_lem d b s s' h (err x) q e = absurd (not_ok (ap (λ w. w.0) e))

delete_keeps_lem :
    (d i : Digest) (s : Store) (r : Result BlobStoreError Store)
    → delete d s ≡ r
    → i ≢ d
    → get i (or_same s r) ≡ get i s
delete_keeps_lem d i s (ok t) q n = (get-delete d s t q).1 i n
delete_keeps_lem d i s (err e) q n = refl

-- The in-memory store returns what was put, and a `put` or `delete` of one digest loses no other blob.
pub memory-IsBlobStore : (h : Hasher) → IsBlobStore (memory h)
memory-IsBlobStore h = record {
  get-put = λ d b s s' e. get_put_lem d b s s' h (put h d b s) refl e;
  put_keeps = λ d i b s held. put_keeps_lem h d i b s (put h d b s) refl held;
  delete_keeps = λ d i s n. delete_keeps_lem d i s (delete d s) refl n;
}
