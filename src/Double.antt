-- ===== src/Double.antt =====
-- Whole numbers that are not negative, as JavaScript computes with them: IEEE doubles, rounded to
-- the nearest, ties to the even significand, and Infinity beyond.
use native.Mathlib.Nat.{div-one, mod-one}
use nestjs_api_starter.Prelude.{
  ℕ, zero, suc, ◌+◌, ◌*◌, ◌/◌, ◌%◌, ◌^◌, ◌<◌, ◌≡◌, refl, true, ltb, if◌then◌else◌, arith,
}

pub data Double : Type 0 where
  whole : ℕ → Double
  infinity : Double

-- how many bits a number has above 53, up to a bound
unfoldable pub excess : ℕ → ℕ → ℕ
excess zero n = 0
excess (suc bound) n = let more = excess bound (n / 2) in if ltb n (2 ^ 53) then 0 else suc more

-- n in units of 2 ^ e, rounded
abbrev in_units : ℕ → ℕ → ℕ
in_units e n =
    let q = n / 2 ^ e in
    let r = n % 2 ^ e in
    if ltb (2 * r) (2 ^ e) then q else if ltb (2 ^ e) (2 * r) then q + 1 else q + q % 2

abbrev finite_or_infinity : ℕ → Double
finite_or_infinity n = if ltb n (2 ^ 1024) then whole n else infinity

-- The double nearest to n. Numbers below 2 ^ 1024 have at most 971 bits above 53.
unfoldable pub nearest : ℕ → Double
nearest n =
    if ltb n (2 ^ 1024)
    then (let e = excess 971 n in finite_or_infinity (in_units e n * 2 ^ e))
    else infinity

excess-small : (bound n : ℕ) → n < 2 ^ 53 → excess bound n ≡ 0
unfolding excess
excess-small zero n small = refl
excess-small (suc bound) n small = ground arith

unit-exact : (n : ℕ) → in_units 0 n * 2 ^ 0 ≡ n
unit-exact n = rw (div-one n, mod-one n) (omega arith)

-- A number that 53 bits hold is a double.
pub nearest-exact : (n : ℕ) → n < 2 ^ 53 → nearest n ≡ whole n
unfolding nearest
nearest-exact n small =
    let below : ltb n (2 ^ 1024) ≡ true = ground arith in
    rw (below, excess-small 971 n small, unit-exact n, below) refl
