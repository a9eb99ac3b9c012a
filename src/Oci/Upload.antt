-- ===== src/Oci/Upload.antt =====
-- crates/ferro-oci-server/src/upload.rs: upload sessions and the header `Content-Range`.
pub mod Laws
use ferro_protocols.Prelude.{
  ℕ, ◌+◌, ◌-◌, Bool, Bytes, List, [], ◌∷◌, ◌++◌, Option, none, some, length, ltb, leb, ◌*◌,
  if◌then◌else◌,
}
use ferro_protocols.Prelude.Result.{Result, ok, err, ◌>>=◌}
use ferro_protocols.Prelude.Texts.{Text, codes}
use ferro_protocols.Prelude.Words.{u64_max}
use ferro_protocols.Prelude.Cuts.{trim, split, split_once, strip_prefix, parse_u64}

abbrev pub max_upload_session_bytes : ℕ
max_upload_session_bytes = 4 * 1024 * 1024 * 1024

-- A time is a number of nanoseconds.
pub record UploadState : Type 0 where
  pub name : Text
  pub uuid : Text
  pub buffer : Bytes
  pub last_activity : ℕ

-- `UploadState::new`, at a time
unfoldable pub new : ℕ → Text → Text → UploadState
new now name uuid = record { name = name; uuid = uuid; buffer = []; last_activity = now }

unfoldable pub offset : UploadState → ℕ
offset u = length u.buffer

-- `append`, at a time; the new offset is that of the result
unfoldable pub append : ℕ → Bytes → UploadState → UploadState
append now chunk u = record u { buffer = u.buffer ++ chunk; last_activity = now }

-- A time before the last activity counts as no time at all.
unfoldable pub is_idle_for : ℕ → ℕ → UploadState → Bool
is_idle_for now ttl u = leb ttl (now - u.last_activity)

unfoldable pub take_bytes : UploadState → Bytes × UploadState
take_bytes u = (u.buffer, record u { buffer = [] })

pub data ContentRangeParseError : Type 0 where
  malformed reversed : ContentRangeParseError

pub record ContentRange : Type 0 where
  pub start : ℕ
  pub end : ℕ

abbrev pub or_malformed : {A : Type 0} → Option A → Result ContentRangeParseError A
or_malformed none = err malformed
or_malformed (some a) = ok a

abbrev pub or_whole : Text → Option Text → Text
or_whole value none = value
or_whole value (some rest) = rest

abbrev pub first_or : Text → List Text → Text
first_or d [] = d
first_or d (x ∷ xs) = x

abbrev pub checked : ℕ → ℕ → Result ContentRangeParseError ContentRange
checked start end = if ltb end start then err reversed else ok (record { start = start; end = end })

abbrev pub from_payload : Text → Result ContentRangeParseError ContentRange
from_payload payload = or_malformed (split_once b'-' payload) >>= λ (start_text, end_text).
    or_malformed (parse_u64 (trim start_text)) >>= λ start.
    or_malformed (parse_u64 (trim end_text)) >>= λ end. checked start end

-- `ContentRange::parse`
unfoldable pub parse : Text → Result ContentRangeParseError ContentRange
parse value =
    let payload = or_whole (trim value) (strip_prefix (codes "bytes ") (trim value)) in
    from_payload (first_or payload (split b'/' payload))

-- `checked_sub` and `checked_add` of `u64`
abbrev pub checked_sub : ℕ → ℕ → Option ℕ
checked_sub a b = if ltb a b then none else some (a - b)

abbrev pub checked_add : ℕ → ℕ → Option ℕ
checked_add a b = if leb (a + b) u64_max then some (a + b) else none

unfoldable pub checked_length : ContentRange → Option ℕ
checked_length r = elim (checked_sub r.end r.start) [ none ↦ none | some span ↦ checked_add span 1 ]

-- `length`, with `u64::MAX` on overflow
unfoldable pub range_length : ContentRange → ℕ
range_length r = elim (checked_length r) [ none ↦ u64_max | some len ↦ len ]
