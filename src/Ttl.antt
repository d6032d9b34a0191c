-- ===== src/Ttl.antt =====
-- `parseTtlToMs` of src/auth/auth.service.ts, on texts of code units. The number that the digits
-- write, and its product with the unit, are doubles.
pub mod Value
use nestjs_api_starter.Prelude.{
  ℕ, ◌+◌, ◌-◌, ◌*◌, Bool, true, false, Option, none, some, List, [], ◌∷◌, or_default, if◌then◌else◌,
  ◌==◌, ◌&&◌, ◌||◌, leb, any,
}
use nestjs_api_starter.Double.{Double, whole, infinity, nearest}
use nestjs_api_starter.Json.{Text}

-- the white space and line ends that `trim` removes
abbrev pub is_space : ℕ → Bool
is_space c =
    ((leb 9 c && leb c 13) || (leb 8192 c && leb c 8202))
    || any (λ x. x == c) (32 ∷ 160 ∷ 5760 ∷ 8232 ∷ 8233 ∷ 8239 ∷ 8287 ∷ 12288 ∷ 65279 ∷ [])

unfoldable pub trim_start : Text → Text
trim_start [] = []
trim_start (c ∷ cs) = if is_space c then trim_start cs else c ∷ cs

abbrev pub push_unless_space : ℕ → Text → Text
push_unless_space c [] = if is_space c then [] else c ∷ []
push_unless_space c (x ∷ xs) = c ∷ x ∷ xs

unfoldable pub trim_end : Text → Text
trim_end [] = []
trim_end (c ∷ cs) = push_unless_space c (trim_end cs)

-- `\d`
abbrev pub is_digit : ℕ → Bool
is_digit c = leb 48 c && leb c 57

-- The longest run of digits at the start, as the number that they write, and what follows; `none`
-- without a digit.
unfoldable pub scan : Option ℕ → Text → Option ℕ × Text
scan value [] = (value, [])
scan value (c ∷ cs) =
    if is_digit c then scan (some (or_default value 0 * 10 + (c - 48))) cs else (value, c ∷ cs)

-- TTL_UNIT_MS, by the code of s, m, h, d
abbrev pub unit_ms : ℕ → Option ℕ
unit_ms c =
    if c == 115
    then some 1000
    else if c == 109
    then some 60000
    else if c == 104
    then some 3600000
    else if c == 100
    then some 86400000
    else none

-- `amount * unitMs`
abbrev pub times_ms : Double → ℕ → Double
times_ms (whole amount) ms = nearest (amount * ms)
times_ms infinity ms = infinity

abbrev pub with_unit : Double → Option ℕ → Option Double
with_unit amount none = none
with_unit amount (some ms) = some (times_ms amount ms)

-- the rest of the pattern behind the digits: one unit at most, and the end
abbrev pub amount_ms : Option ℕ × Text → Option Double
amount_ms (none, rest) = none
amount_ms (some digits, []) = some (times_ms (nearest digits) 1000)
amount_ms (some digits, c ∷ []) = with_unit (nearest digits) (unit_ms c)
amount_ms (some digits, c ∷ x ∷ xs) = none

-- `none` is the thrown error
unfoldable pub parse_ttl_to_ms : Text → Option Double
parse_ttl_to_ms ttl = amount_ms (scan none (trim_end (trim_start ttl)))
