-- ===== src/Process/Sequence.antt =====
-- Running a sequence of awaited methods with no other process in between.
use nestjs_api_starter.Prelude.{ℕ, suc, ◌+◌, ◌≡◌, refl, ap, arith, fun_ext, ◌∙◌, sym}
use nestjs_api_starter.Effects.{Result}
use nestjs_api_starter.Process.{Process, done, await, run, steps, zoom, ◌then◌}

module _ {W A B : Type 0} where
  pub run-then :
      (clock : ℕ → ℕ) (p : Process W B) (next : Result B → Process W A) (w : W)
      → run clock (p then next) w
        ≡ run (λ n. clock (steps clock p w + n)) (next (run clock p w).0) (run clock p w).1
  unfolding run steps ◌then◌
  run-then clock (done r) next w =
      ap (λ (c : ℕ → ℕ). run c (next r) w) (fun_ext λ n. ap clock (omega arith))
  run-then clock (await act k) next w =
      run-then (λ n. clock (suc n)) (k (clock 0) w) next (act (clock 0) w)
      ∙ ap
          (λ (c : ℕ → ℕ).
            run c (next (run (λ n. clock (suc n)) (k (clock 0) w) (act (clock 0) w)).0)
              (run (λ n. clock (suc n)) (k (clock 0) w) (act (clock 0) w)).1)
          (fun_ext λ n. ap clock (omega arith))

module _ {S W A : Type 0} (get : W → S) (put : S → W → W)
    (get-put : (s : S) (w : W) → get (put s w) ≡ s)
    (put-put : (s r : S) (w : W) → put s (put r w) ≡ put s w)
    (put-get : (w : W) → put (get w) w ≡ w) where
  pub run-zoom :
      (clock : ℕ → ℕ) (p : Process S A) (w : W)
      → run clock (zoom get put p) w ≡ ((run clock p (get w)).0, put (run clock p (get w)).1 w)
  unfolding run zoom
  run-zoom clock (done r) w = λ i. (r, sym (put-get w) i)
  run-zoom clock (await act k) w = rw (
    run-zoom (λ n. clock (suc n)) (k (clock 0) (get w)) (put (act (clock 0) (get w)) w),
    get-put (act (clock 0) (get w)) w,
    put-put,
  )

  pub steps-zoom :
      (clock : ℕ → ℕ) (p : Process S A) (w : W)
      → steps clock (zoom get put p) w ≡ steps clock p (get w)
  unfolding steps zoom
  steps-zoom clock (done r) w = refl
  steps-zoom clock (await act k) w = rw (
    steps-zoom (λ n. clock (suc n)) (k (clock 0) (get w)) (put (act (clock 0) (get w)) w),
    get-put (act (clock 0) (get w)) w,
  )
