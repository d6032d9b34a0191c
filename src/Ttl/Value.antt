-- ===== src/Ttl/Value.antt =====
-- The lifetime that a configured text stands for.
use nestjs_api_starter.Prelude.{ℕ, ◌+◌, ◌-◌, ◌*◌, ◌≡◌, true, false, some, [], ◌∷◌, All}
use nestjs_api_starter.Json.{Text}
use nestjs_api_starter.Ttl.{is_space, is_digit, unit_ms}

abbrev AllSpace : Text → Type 0
AllSpace = All (λ c. is_space c ≡ true)

abbrev NoSpace : Text → Type 0
NoSpace = All (λ c. is_space c ≡ false)

abbrev AllDigits : Text → Type 0
AllDigits = All (λ c. is_digit c ≡ true)

-- the number that digits write, behind the digits of a first number
abbrev pub value : ℕ → Text → ℕ
value v [] = v
value v (c ∷ cs) = value (v * 10 + (c - 48)) cs

-- A unit as it is written: nothing for seconds, or one of the four letters.
abbrev pub Writes : Text → ℕ → Type 0
Writes [] ms = ms ≡ 1000
Writes (c ∷ []) ms = unit_ms c ≡ some ms
Writes (c ∷ x ∷ xs) ms = ⊥
