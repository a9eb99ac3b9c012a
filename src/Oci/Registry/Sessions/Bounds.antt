-- ===== src/Oci/Registry/Sessions/Bounds.antt =====
-- How many sessions there are, and how much each of them holds.
use ferro_protocols.Prelude.{
  ℕ, ◌+◌, ◌≡◌, ◌≤◌, refl, true, Bytes, [], ◌∷◌, Option, none, some, length, length-append, ◌==◌,
  arith, Bool-cases, inl, inr,
}
use ferro_protocols.Prelude.Maps.{lookup, insert, remove}
use ferro_protocols.Prelude.Texts.{Text}
use ferro_protocols.Oci.Upload.{UploadState, new, offset, append, take_bytes}
use ferro_protocols.Oci.Registry.{SessionLimits, Key, key_eq, Uploads}
use ferro_protocols.Oci.Registry.Sessions.{
  sweep_idle_uploads, start_upload, append_to, append_upload, complete_upload, unless_idle,
  get_upload_state, cancel_upload, take_from, take_upload_bytes,
}

-- Each buffer is of at most so many bytes.
abbrev pub Holds : ℕ → Uploads → Type 0
Holds cap [] = Unit
Holds cap ((key, u) ∷ m) = (offset u ≤ cap) × Holds cap m

module _ (cap : ℕ) where
  sweep-Holds : (now ttl : ℕ) (m : Uploads) → Holds cap m → Holds cap (sweep_idle_uploads now ttl m)
  unfolding sweep_idle_uploads
  sweep-Holds now ttl [] h = tt
  sweep-Holds now ttl ((key, u) ∷ m) (b, h) = ground (arith, sweep-Holds now ttl m h)

  pub insert-Holds :
      (key : Key) (u : UploadState) (m : Uploads)
      → offset u ≤ cap
      → Holds cap m
      → Holds cap (insert key_eq key u m)
  unfolding insert
  insert-Holds key u [] b h = (b, tt)
  insert-Holds key u ((j, v) ∷ m) b (c, h) = ground (arith, insert-Holds key u m b h)

  pub remove-Holds : (key : Key) (m : Uploads) → Holds cap m → Holds cap (remove key_eq key m)
  unfolding remove
  remove-Holds key [] h = tt
  remove-Holds key ((j, v) ∷ m) (c, h) = ground (arith, remove-Holds key m h)

  pub lookup-Holds :
      (key : Key) (u : UploadState) (m : Uploads)
      → Holds cap m
      → lookup key_eq key m ≡ some u
      → offset u ≤ cap
  unfolding lookup
  lookup-Holds key u [] h e = absurd (ground arith)
  lookup-Holds key u ((j, v) ∷ m) (c, h) e = ground (arith, lookup-Holds key u m h)

sweep-length : (now ttl : ℕ) (m : Uploads) → length (sweep_idle_uploads now ttl m) ≤ length m
unfolding sweep_idle_uploads
sweep-length now ttl [] = omega arith
sweep-length now ttl ((key, u) ∷ m) = ground (arith, sweep-length now ttl m)

insert-length :
    (key : Key) (u : UploadState) (m : Uploads) → length (insert key_eq key u m) ≤ length m + 1
unfolding insert
insert-length key u [] = omega arith
insert-length key u ((j, v) ∷ m) = ground (arith, insert-length key u m)

remove-length : (key : Key) (m : Uploads) → length (remove key_eq key m) ≤ length m
unfolding remove
remove-length key [] = omega arith
remove-length key ((j, v) ∷ m) = ground (arith, remove-length key m)

-- A session that is there is replaced.
replace-length :
    (key : Key) (u v : UploadState) (m : Uploads)
    → lookup key_eq key m ≡ some v
    → length (insert key_eq key u m) ≡ length m
unfolding lookup insert
replace-length key u v [] h = absurd (ground arith)
replace-length key u v ((j, w) ∷ m) h = ground (arith, replace-length key u v m)

module _ (limits : SessionLimits) (cap : ℕ) where
  -- There are at most so many sessions, and each holds at most so many bytes.
  abbrev pub Fits : Uploads → Type 0
  Fits m = (length m ≤ limits.max_sessions) × Holds cap m

  pub start_upload-Fits :
      (now : ℕ) (name uuid : Text) (m : Uploads)
      → Fits m
      → Fits (start_upload limits now name uuid m).1
  unfolding start_upload new offset
  start_upload-Fits now name uuid m (l, h) =
      let s : Uploads = sweep_idle_uploads now limits.idle_ttl m in
      let hs = sweep-Holds cap now limits.idle_ttl m h in
      ground (
        arith,
        sweep-length now limits.idle_ttl m,
        insert-length (name, uuid) (new now name uuid) s,
        hs,
        insert-Holds cap (name, uuid) (new now name uuid) s (omega arith) hs,
      )

  remove-Fits : (key : Key) (m : Uploads) → Fits m → Fits (remove key_eq key m)
  remove-Fits key m (l, h) = (omega (arith, remove-length key m), remove-Holds cap key m h)

  pub complete_upload-Fits : (key : Key) (m : Uploads) → Fits m → Fits (complete_upload key m)
  unfolding complete_upload
  complete_upload-Fits key m h = remove-Fits key m h

  pub cancel_upload-Fits : (key : Key) (m : Uploads) → Fits m → Fits (cancel_upload key m).1
  unfolding cancel_upload
  cancel_upload-Fits key m h = remove-Fits key m h

  unless_idle-Fits :
      (now : ℕ) (key : Key) (m : Uploads) (o : Option UploadState)
      → Fits m
      → Fits (unless_idle limits now key m o).1
  unless_idle-Fits now key m none h = h
  unless_idle-Fits now key m (some u) h = ground (arith, remove-Fits key m h)

  pub get_upload_state-Fits :
      (now : ℕ) (key : Key) (m : Uploads) → Fits m → Fits (get_upload_state limits now key m).1
  unfolding get_upload_state
  get_upload_state-Fits now key m h = unless_idle-Fits now key m (lookup key_eq key m) h

  put_back-Fits :
      (key : Key) (u v : UploadState) (m : Uploads)
      → lookup key_eq key m ≡ some v
      → offset u ≤ cap
      → Fits m
      → Fits (insert key_eq key u m)
  put_back-Fits key u v m e b (l, h) =
      (omega (arith, replace-length key u v m e), insert-Holds cap key u m b h)

  take_from-Fits :
      (key : Key) (m : Uploads) (o : Option UploadState)
      → lookup key_eq key m ≡ o
      → Fits m
      → Fits (take_from key m o).1
  unfolding take_bytes offset
  take_from-Fits key m none e h = h
  take_from-Fits key m (some u) e h = put_back-Fits key (take_bytes u).1 u m e (omega arith) h

  pub take_upload_bytes-Fits : (key : Key) (m : Uploads) → Fits m → Fits (take_upload_bytes key m).1
  unfolding take_upload_bytes
  take_upload_bytes-Fits key m h = take_from-Fits key m (lookup key_eq key m) refl h

  append-offset :
      (now at : ℕ) (chunk : Bytes) (u : UploadState)
      → at + length chunk ≤ cap
      → (at == offset u) ≡ true
      → offset (append now chunk u) ≤ cap
  unfolding append offset
  append-offset now at chunk u b same = ground (arith, length-append u.buffer chunk)

  append_to-Fits :
      (now : ℕ) (key : Key) (at : ℕ) (chunk : Bytes) (m : Uploads) (o : Option UploadState)
      → at + length chunk ≤ cap
      → lookup key_eq key m ≡ o
      → Fits m
      → Fits (append_to now key at chunk m o).1
  append_to-Fits now key at chunk m none b e h = h
  append_to-Fits now key at chunk m (some u) b e h = elim (Bool-cases (at == offset u)) [
    | inl same ↦ ground (
      arith,
      put_back-Fits key (append now chunk u) u m e (append-offset now at chunk u b same) h,
    )
    | inr other ↦ ground arith
  ]

  -- A chunk that is put where it says leaves the bound, if the place and the chunk do.
  pub append_upload-Fits :
      (now : ℕ) (key : Key) (at : ℕ) (chunk : Bytes) (m : Uploads)
      → at + length chunk ≤ cap
      → Fits m
      → Fits (append_upload now key at chunk m).1
  unfolding append_upload
  append_upload-Fits now key at chunk m b h =
      append_to-Fits now key at chunk m (lookup key_eq key m) b refl h
