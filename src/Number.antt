-- ===== src/Number.antt =====
-- The numbers of JavaScript that the program computes with, by exact arithmetic: a finite number is
-- a sign, a natural number and a power of two that divides it. Rounding of results that a double
-- cannot hold is not modelled.
use nestjs_api_starter.Prelude.{
  ℕ, ◌+◌, ◌-◌, ◌*◌, ◌/◌, ◌^◌, Bool, true, false, not, ◌&&◌, leb, ◌==◌, if◌then◌else◌,
}

-- `finite s n k` is n / 2^k, or its negative if `s`.
pub data Number : Type 0 where
  nan : Number
  infinite : Bool → Number
  finite : Bool → ℕ → ℕ → Number

abbrev pub whole : ℕ → Number
whole n = finite false n 0

-- Math.floor
abbrev pub floor : Number → Number
floor nan = nan
floor (infinite s) = infinite s
floor (finite false n k) = finite false (n / 2 ^ k) 0
floor (finite true n k) = finite true ((n + (2 ^ k - 1)) / 2 ^ k) 0

-- `x <= y`, which is false if one is NaN
abbrev pub num_leb : Number → Number → Bool
num_leb nan y = false
num_leb (infinite s) nan = false
num_leb (infinite true) (infinite s) = true
num_leb (infinite false) (infinite s) = not s
num_leb (infinite s) (finite s' n k) = s
num_leb (finite s n k) nan = false
num_leb (finite s n k) (infinite s') = not s'
num_leb (finite false n k) (finite false m j) = leb (n * 2 ^ j) (m * 2 ^ k)
num_leb (finite false n k) (finite true m j) = (n == 0) && (m == 0)
num_leb (finite true n k) (finite false m j) = true
num_leb (finite true n k) (finite true m j) = leb (m * 2 ^ k) (n * 2 ^ j)

abbrev is_nan : Number → Bool
is_nan nan = true
is_nan (infinite s) = false
is_nan (finite s n k) = false

-- `x < y`
abbrev pub num_ltb : Number → Number → Bool
num_ltb nan y = false
num_ltb (infinite s) y = if is_nan y then false else not (num_leb y (infinite s))
num_ltb (finite s n k) y = if is_nan y then false else not (num_leb y (finite s n k))

-- Math.max and Math.min of two numbers
abbrev pub num_max : Number → Number → Number
num_max nan y = nan
num_max (infinite s) y = if is_nan y then nan else if num_leb (infinite s) y then y else infinite s
num_max (finite s n k) y =
    if is_nan y then nan else if num_leb (finite s n k) y then y else finite s n k

abbrev pub num_min : Number → Number → Number
num_min nan y = nan
num_min (infinite s) y = if is_nan y then nan else if num_leb (infinite s) y then infinite s else y
num_min (finite s n k) y =
    if is_nan y then nan else if num_leb (finite s n k) y then finite s n k else y

-- `x - 1`
abbrev pub minus_one : Number → Number
minus_one nan = nan
minus_one (infinite s) = infinite s
minus_one (finite true n k) = finite true (n + 2 ^ k) k
minus_one (finite false n k) =
    if leb (2 ^ k) n then finite false (n - 2 ^ k) k else finite true (2 ^ k - n) k

abbrev xor : Bool → Bool → Bool
xor true b = not b
xor false b = b

-- `x * y`
abbrev pub times : Number → Number → Number
times nan y = nan
times (infinite s) nan = nan
times (infinite s) (infinite s') = infinite (xor s s')
times (infinite s) (finite s' n k) = if n == 0 then nan else infinite (xor s s')
times (finite s n k) nan = nan
times (finite s n k) (infinite s') = if n == 0 then nan else infinite (xor s s')
times (finite s n k) (finite s' m j) = finite (xor s s') (n * m) (k + j)

-- `Math.ceil(total / limit)` for a positive limit
abbrev pub ceil_quotient : ℕ → Number → Number
ceil_quotient total nan = nan
ceil_quotient total (infinite s) = finite s 0 0
ceil_quotient total (finite s n k) =
    if n == 0
    then if total == 0 then nan else infinite s
    else if s
    then finite true ((total * 2 ^ k) / n) 0
    else whole ((total * 2 ^ k + (n - 1)) / n)
