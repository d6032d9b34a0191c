-- ===== src/Process.antt =====
-- Asynchronous methods. Between two `await`s the program runs alone; each awaited call is one
-- atomic action on the shared world, made at a time that the environment chooses, and processes of
-- several requests interleave at these points.
pub mod Sequence
use nestjs_api_starter.Prelude.{ℕ, zero, suc, List, [], ◌∷◌}
use nestjs_api_starter.Effects.{Result, ok, err, Exception, Eff}

-- `await act next`: the action's effect on the world, and what the process does after it.
pub data Process (W A : Type 0) : Type 0 where
  done : Result A → Process W A
  await : (ℕ → W → W) → (ℕ → W → Process W A) → Process W A

module _ {W A B : Type 0} where
  -- One awaited call, whose result goes to the rest of the method.
  abbrev pub call : (ℕ → Eff W B) → (Result B → Process W A) → Process W A
  call act next = await (λ now w. (act now w).1) (λ now w. next (act now w).0)

  -- A rejected promise that nothing catches ends the method.
  abbrev pub on_ok : (B → Process W A) → Result B → Process W A
  on_ok next (ok b) = next b
  on_ok next (err e) = done (err e)

  infixl 10 ◌then◌
  -- `await` of another asynchronous method
  unfoldable pub ◌then◌ : Process W B → (Result B → Process W A) → Process W A
  ◌then◌ (done r) next = next r
  ◌then◌ (await act k) next = await act (λ now w. k now w then next)

-- A process over a part of the world.
module _ {S W A : Type 0} (get : W → S) (put : S → W → W) where
  unfoldable pub zoom : Process S A → Process W A
  zoom (done r) = done r
  zoom (await act k) = await (λ now w. put (act now (get w)) w) (λ now w. zoom (k now (get w)))

module _ {W A : Type 0} where
  -- A method that runs with no other process between its calls; the clock gives a time to each.
  unfoldable pub run : (ℕ → ℕ) → Process W A → W → Result A × W
  run clock (done r) w = (r, w)
  run clock (await act k) w = run (λ n. clock (suc n)) (k (clock 0) w) (act (clock 0) w)

  -- the number of calls that it makes
  unfoldable pub steps : (ℕ → ℕ) → Process W A → W → ℕ
  steps clock (done r) w = 0
  steps clock (await act k) w = suc (steps (λ n. clock (suc n)) (k (clock 0) w) (act (clock 0) w))

  -- The scheduler lets the process at a place take one step; one that is done has none to take.
  unfoldable pub advance : ℕ → Process W A → W → Process W A × W
  advance now (done r) w = (done r, w)
  advance now (await act k) w = (k now w, act now w)

  unfoldable pub schedule_one : ℕ → ℕ → List (Process W A) → W → List (Process W A) × W
  schedule_one i now [] w = ([], w)
  schedule_one zero now (p ∷ ps) w = let (q, w') = advance now p w in (q ∷ ps, w')
  schedule_one (suc i) now (p ∷ ps) w = let (qs, w') = schedule_one i now ps w in (p ∷ qs, w')

  -- A history: which process takes a step, and when.
  unfoldable pub schedule : List (ℕ × ℕ) → List (Process W A) → W → List (Process W A) × W
  schedule [] ps w = (ps, w)
  schedule ((i, now) ∷ moves) ps w = let (qs, w') = schedule_one i now ps w in schedule moves qs w'
