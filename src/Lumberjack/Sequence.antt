-- ===== src/Lumberjack/Sequence.antt =====
-- crates/ferro-lumberjack/src/sequence.rs: RFC 1982 serial numbers on `u32`.
use ferro_protocols.Prelude.{ℕ, ◌<◌, ◌≡◌, ◌↔◌, Bool, true, false, arith, ltb, ◌==◌, if◌then◌else◌}
use ferro_protocols.Prelude.Words.{u32_mod, wrapping_add, wrapping_sub}

pub record Sequence : Type 0 where
  pub value : ℕ

-- `Sequence::new`, and `From<u32>`
abbrev pub new : ℕ → Sequence
new v = record { value = v }

abbrev pub IsU32 : Sequence → Type 0
IsU32 s = s.value < u32_mod

unfoldable pub advance : Sequence → ℕ → Sequence
advance s n = record { value = wrapping_add s.value n }

unfoldable pub is_exactly_acked_by : Sequence → ℕ → Bool
is_exactly_acked_by s acked = wrapping_sub acked s.value == 0

unfoldable pub is_at_least_acked_by : Sequence → ℕ → Bool
is_at_least_acked_by s acked = ltb (wrapping_sub acked s.value) 0x8000_0000

-- The exact test by subtraction is equality of the two words.
is_exactly_acked_by_iff :
    (s : Sequence) (acked : ℕ)
    → IsU32 s
    → acked < u32_mod
    → (is_exactly_acked_by s acked ≡ true) ↔ (acked ≡ s.value)
unfolding is_exactly_acked_by
is_exactly_acked_by_iff s acked hs ha = ground arith

-- For words s and n, the number n steps ahead of s acknowledges s exactly when n is below half the
-- circle, also where the addition wraps around.
pub is_at_least_acked_by-advance :
    (s : Sequence) (n : ℕ)
    → IsU32 s
    → n < u32_mod
    → is_at_least_acked_by s (advance s n).value ≡ ltb n 0x8000_0000
unfolding is_at_least_acked_by advance
is_at_least_acked_by-advance s n hs hn = ground arith

-- Two different words that are not half the circle apart are ordered one way and not the other.
is_at_least_acked_by_total :
    (s t : Sequence)
    → IsU32 s
    → IsU32 t
    → ¬ (s.value ≡ t.value)
    → ¬ (wrapping_sub t.value s.value ≡ 0x8000_0000)
    → is_at_least_acked_by s t.value ≡ (if is_at_least_acked_by t s.value then false else true)
unfolding is_at_least_acked_by
is_at_least_acked_by_total s t hs ht ne half = ground arith
