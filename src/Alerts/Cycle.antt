-- ===== src/Alerts/Cycle.antt =====
-- The identities of what is sent about a condition: "open:" or "resolved:" and the number of the
-- cycle (`conditionCycle` and `nextConditionCycle` of internal/alerts/monitor.go).
pub mod RoundTrip
use wpx.Prelude.{
  ℕ, zero, suc, ◌+◌, ◌-◌, ◌*◌, ◌/◌, ◌%◌, ◌^◌, Bool, true, false, not, ◌&&◌, ltb, List, [], ◌∷◌,
  ◌++◌, Option, some, none, if◌then◌else◌,
}
use wpx.Text.{Text, codes, cut, is_digit, ◌=ᵗ◌}

-- `strconv.ParseUint(s, 10, 64)`: digits only, at least one, and a value below `2 ^ 64`.
unfoldable pub parse_from : ℕ → Text → Option ℕ
parse_from value [] = some value
parse_from value (c ∷ s) =
    let rest = parse_from (value * 10 + (c - b'0')) s in
    if is_digit c && ltb (value * 10 + (c - b'0')) (2 ^ 64) then rest else none

unfoldable pub parse_uint : Text → Option ℕ
unfolding parse_from
parse_uint [] = none
parse_uint (c ∷ s) = parse_from 0 (c ∷ s)

-- `strconv.FormatUint(n, 10)`; a value below `2 ^ 64` has at most 20 digits.
unfoldable pub digits : ℕ → ℕ → Text → Text
digits zero n written = written
digits (suc fuel) n written =
    let rest = digits fuel (n / 10) ((b'0' + n % 10) ∷ written) in
    if ltb n 10 then (b'0' + n) ∷ written else rest

unfoldable pub format_uint : ℕ → Text
unfolding digits
format_uint n = digits 20 n []

abbrev is_parsed : Option ℕ → Bool
is_parsed none = false
is_parsed (some n) = true

-- `conditionCycle`
unfoldable pub condition_cycle : Text → Text
unfolding cut parse_uint
condition_cycle phase =
    let (kind, cycle, found) = cut b':' phase in
    if found && is_parsed (parse_uint cycle) then cycle else codes "1"

abbrev or_zero : Option ℕ → ℕ
or_zero none = 0
or_zero (some n) = n

-- `nextConditionCycle`
unfoldable pub next_condition_cycle : Text → Text
unfolding condition_cycle format_uint parse_uint
next_condition_cycle phase =
    if phase =ᵗ []
    then codes "1"
    else format_uint ((or_zero (parse_uint (condition_cycle phase)) + 1) % 2 ^ 64)
