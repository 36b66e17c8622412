-- ===== src/Backend/Clock.antt =====
-- nowRFC3339 and newID of agent/backend/store.go, as functions of the time and the random bytes.
pub mod Order
use take.Prelude.{
  ℕ, ◌+◌, ◌-◌, ◌*◌, ◌/◌, ◌%◌, ◌^◌, Option, none, some, List, [], ◌∷◌, ◌++◌, Text, codes, ltb, leb,
  ◌==◌, if◌then◌else◌, decimal, padded,
}

-- A UTC time since 1970: whole seconds, and nanoseconds below 10^9.
pub record Time : Type 0 where
  pub seconds : ℕ
  pub nanos : ℕ

-- The date of a day count since 1970-01-01, in the proleptic Gregorian calendar.
unfoldable pub date : ℕ → Text
unfolding padded
date days =
    let z = days + 719468 in
    let doe = z % 146097 in
    let yoe = (doe - doe / 1460 + doe / 36524 - doe / 146096) / 365 in
    let doy = doe - (365 * yoe + yoe / 4 - yoe / 100) in
    let mp = (5 * doy + 2) / 153 in
    let d = doy - (153 * mp + 2) / 5 + 1 in
    let m = if ltb mp 10 then mp + 3 else mp - 9 in
    let y = yoe + z / 146097 * 400 + (if leb m 2 then 1 else 0) in
    padded 4 y ++ codes "-" ++ padded 2 m ++ codes "-" ++ padded 2 d

unfoldable pub clock_time : ℕ → Text
unfolding padded
clock_time s =
    padded 2 (s / 3600) ++ codes ":" ++ padded 2 (s / 60 % 60) ++ codes ":" ++ padded 2 (s % 60)

-- Go's ".999999999": trailing zeros go, and the point with them when none is left.
unfoldable pub strip_zeros : Text → Text
strip_zeros [] = []
strip_zeros (c ∷ s) = elim (strip_zeros s) [
  | [] ↦ if c == b'0' then [] else c ∷ []
  | d ∷ r ↦ c ∷ d ∷ r
]

unfoldable pub fraction : ℕ → Text
unfolding padded strip_zeros
fraction nanos = if nanos == 0 then [] else b'.' ∷ strip_zeros (padded 9 nanos)

unfoldable pub now_rfc3339 : Time → Text
unfolding date clock_time fraction
now_rfc3339 t =
    (date (t.seconds / 86400) ++ b'T' ∷ clock_time (t.seconds % 86400))
    ++ (fraction t.nanos ++ codes "Z")

unfoldable pub hex_digit : ℕ → ℕ
hex_digit n = if ltb n 10 then b'0' + n else b'a' + n - 10

-- hex.EncodeToString
unfoldable pub hex : List ℕ → Text
unfolding hex_digit
hex [] = []
hex (b ∷ bs) = hex_digit (b / 16 % 16) ∷ hex_digit (b % 16) ∷ hex bs

-- `none` stands for a failure of rand.Read; the time is the one read then.
unfoldable pub new_id : Option (List ℕ) → Time → Text
unfolding hex decimal
new_id (some bytes) now = hex bytes
new_id none now = decimal (now.seconds * 10 ^ 9 + now.nanos)
