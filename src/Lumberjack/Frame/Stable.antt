-- ===== src/Lumberjack/Frame/Stable.antt =====
-- What more input does to a parse of frame.rs: a frame or an error that was found stays, and only
-- "too few bytes" may change.
use ferro_protocols.Prelude.{
  ℕ, zero, suc, ◌+◌, ◌≤◌, ◌≡◌, refl, ap, ◌∙◌, Bytes, [], ◌∷◌, ◌++◌, length, take, drop, arith,
  length-append, length-drop, take-append, drop-append,
}
use ferro_protocols.Prelude.Words.{from_be_bytes}
use ferro_protocols.Lumberjack.Zlib.{Zlib}
use ferro_protocols.Lumberjack.Frame.{Frame, window, ack}
use ferro_protocols.Lumberjack.Frame.View.{word_at}
use ferro_protocols.Lumberjack.Frame.Parse.{
  Parse, more, bad, got, parse_word, parse_json, parse_compressed, inflated, parse_field,
  next_field, parse_pairs, whole, parse_legacy, parse_body, parse,
}

-- `q` is `p`, unless `p` lacks bytes.
abbrev pub Extends : {A : Type 0} → Parse A → Parse A → Type 0
Extends more q = Unit {0}
Extends (bad e) q = q ≡ bad e
Extends (got a n) q = q ≡ got a n

module _ (u w : Bytes) where
  pub take-drop-append : (n k : ℕ) → k + n ≤ length u → take n (drop k (u ++ w)) ≡ take n (drop k u)
  take-drop-append n k h =
      ap (take n) (drop-append k u w (omega arith))
      ∙ take-append n (drop k u) w (omega (arith, length-drop k u))

  word_at-append : (k : ℕ) → k + 4 ≤ length u → word_at (u ++ w) k ≡ word_at u k
  word_at-append k h = ap from_be_bytes (take-drop-append 4 k h)

  word_stable : (f : ℕ → Frame) → Extends (parse_word f u) (parse_word f (u ++ w))
  unfolding parse_word
  word_stable f = ground (arith, length-append u w, word_at-append 2)

  json_stable : (cap : ℕ) → Extends (parse_json cap u) (parse_json cap (u ++ w))
  unfolding parse_json
  json_stable cap = ground (
    arith,
    length-append u w,
    word_at-append 2,
    word_at-append 6,
    take-drop-append (word_at u 6) 10,
  )

  compressed_stable :
      (z : Zlib) (cap : ℕ) → Extends (parse_compressed z cap u) (parse_compressed z cap (u ++ w))
  unfolding parse_compressed inflated
  compressed_stable z cap =
      ground (arith, length-append u w, word_at-append 2, take-drop-append (word_at u 2) 6)

  field_stable :
      (cap cursor : ℕ) → Extends (parse_field cap u cursor) (parse_field cap (u ++ w) cursor)
  unfolding parse_field
  field_stable cap cursor = ground (arith, length-append u w, word_at-append cursor)

next_field_stable :
    (p q : Parse (Unit {0})) (f g : ℕ → Parse (Unit {0}))
    → Extends p q
    → ((n : ℕ) → Extends (f n) (g n))
    → Extends (next_field p f) (next_field q g)
next_field_stable more q f g h k = tt
next_field_stable (bad e) q f g h k = rw h
next_field_stable (got _ n) q f g h k = rw h (k n)

module _ (u w : Bytes) (cap : ℕ) where
  pairs_stable :
      (pairs cursor : ℕ)
      → Extends (parse_pairs cap u pairs cursor) (parse_pairs cap (u ++ w) pairs cursor)
  unfolding parse_pairs
  pairs_stable zero cursor = refl
  pairs_stable (suc pairs) cursor =
      let v : Bytes = u ++ w in
      next_field_stable (parse_field cap u cursor) (parse_field cap v cursor)
        (λ k. next_field (parse_field cap u k) (parse_pairs cap u pairs))
        (λ k. next_field (parse_field cap v k) (parse_pairs cap v pairs))
        (field_stable u w cap cursor)
        λ k.
          next_field_stable (parse_field cap u k) (parse_field cap v k) (parse_pairs cap u pairs)
            (parse_pairs cap v pairs) (field_stable u w cap k) (pairs_stable pairs)

  whole_stable : (p q : Parse (Unit {0})) → Extends p q → Extends (whole u p) (whole (u ++ w) q)
  whole_stable more q h = tt
  whole_stable (bad e) q h = rw h
  whole_stable (got _ n) q h = rw h (ground (arith, length-append u w, take-append n u w))

  legacy_stable : Extends (parse_legacy cap u) (parse_legacy cap (u ++ w))
  unfolding parse_legacy
  legacy_stable =
      let p : Parse (Unit {0}) = parse_pairs cap u (word_at u 6) 10 in
      ground (
        arith,
        length-append u w,
        word_at-append u w 6,
        whole_stable p (parse_pairs cap (u ++ w) (word_at u 6) 10) (pairs_stable (word_at u 6) 10),
      )

  body_stable : (z : Zlib) (t : ℕ) → Extends (parse_body z cap t u) (parse_body z cap t (u ++ w))
  unfolding parse_body
  body_stable z t = ground (
    arith,
    word_stable u w window,
    word_stable u w ack,
    json_stable u w cap,
    compressed_stable u w z cap,
    legacy_stable,
  )

-- More input never changes a frame or an error that the bytes so far determine.
pub parse-append :
    (z : Zlib) (cap : ℕ) (u w : Bytes) → Extends (parse z cap u) (parse z cap (u ++ w))
unfolding parse
parse-append z cap [] w = tt
parse-append z cap (v ∷ []) w = tt
parse-append z cap (v ∷ t ∷ r) w = ground (arith, body_stable (v ∷ t ∷ r) w cap z t)
