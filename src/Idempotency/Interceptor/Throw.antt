-- ===== src/Idempotency/Interceptor/Throw.antt =====
-- A first request with a fresh key whose handler throws.
use nestjs_api_starter.Prelude.{
  ℕ, ◌+◌, String, ◌≡◌, refl, ap, ◌∙◌, Option, some, true, false, inl, Apart, All,
}
use nestjs_api_starter.Effects.{Result, ok, err, Exception}
use nestjs_api_starter.Process.{Process, done, run, steps}
use nestjs_api_starter.Prisma.{Delegate, IsUp}
use nestjs_api_starter.Json.{Text}
use nestjs_api_starter.Idempotency.Store.{
  IdempotencyKey, same_key, valid_where, started, reserve, release, pending_row,
}
use nestjs_api_starter.Idempotency.Store.Rows.{same_identity_refl}
use nestjs_api_starter.Idempotency.Store.Finalize.{reserve-release}
use nestjs_api_starter.Idempotency.Store.Expiry.{pending-Apart}
use nestjs_api_starter.Idempotency.Interceptor.{
  Request, Handled, Outcome, World, intercept, extract_key, truthy, reserve_input, identity_for,
  after_handle,
}
use nestjs_api_starter.Idempotency.Interceptor.Gate.{run-on_keys}
use nestjs_api_starter.Idempotency.Interceptor.First.{release_up, reserved, late, after}

module _ (sha256 : Text → String) (ttl : Option ℕ) (t : Delegate IdempotencyKey same_key)
    (up : IsUp t) {App : Type 0} (handle : Process App Handled) (clock : ℕ → ℕ) (request : Request)
    (key : String) (keyed : truthy (extract_key request.key_header) ≡ some key)
    (w : World t.State App) (unique : Apart same_key (t.rows w.keys))
    (free : All
      (λ r. valid_where (identity_for request key) (clock 0) r ≡ false)
      (t.rows w.keys)) where
  throw-all :
      (error : Exception) (app : App)
      → run (late clock) handle w.app ≡ (err error, app)
      → (w₁ : World t.State App) × (run clock (intercept sha256 ttl t handle true request) w
          ≡ (err error, w₁))
        × (w₁.app ≡ app)
        × ((later : ℕ → ℕ)
            → (s : t.State) × (run later
                  (reserve t (reserve_input sha256 ttl t handle request key))
                  w₁.keys
                ≡ (ok started, s)))
  unfolding run
  throw-all error app throws =
      let (s₁, r) = reserved sha256 ttl t up handle clock request key keyed w unique free in
      let (s₂, released) = release_up t up (identity_for request key) s₁ in
      (
        record { keys = s₂; app = app },
        r.continues
            ∙ ap
                (λ (r : Result Handled × App).
                  run (after clock handle w)
                    (after_handle sha256 ttl t handle (identity_for request key) r.0)
                    (record { keys = s₁; app = r.1 }))
                throws
            ∙ run-on_keys (after clock handle w) (release t (identity_for request key))
                (λ _. done (err error)) (record { keys = s₁; app = app })
            ∙ ap
                (λ (r : Result (Unit {0}) × t.State).
                  run {A = Outcome}
                    (λ n.
                      (after clock handle w) (
                        steps (after clock handle w) (release t (identity_for request key)) s₁ + n))
                    (done (err error)) (record { keys = r.1; app = app }))
                (released (after clock handle w)),
        refl,
        λ later.
            reserve-release t up later (reserve_input sha256 ttl t handle request key) clock s₁ s₂
              (pending_row (reserve_input sha256 ttl t handle request key) (clock 2) r.id)
              (rw r.rows (
                pending-Apart (reserve_input sha256 ttl t handle request key) (clock 0) (clock 2)
                  r.id (t.rows w.keys) unique free))
              (rw r.rows (inl refl)) (same_identity_refl (identity_for request key)) refl
              (released clock),
      )

  -- While the database answers and its keys are unique: if the handler of the first request with a
  -- fresh key throws, the caller gets its very exception, and the key is free again: a `reserve`
  -- that follows is told to start.
  pub intercept-throw :
      (error : Exception) (app : App) (later : ℕ → ℕ)
      → run (late clock) handle w.app ≡ (err error, app)
      → (w₁ : World t.State App) × (s : t.State) × (run clock
            (intercept sha256 ttl t handle true request)
            w
          ≡ (err error, w₁))
        × (w₁.app ≡ app)
        × (run later (reserve t (reserve_input sha256 ttl t handle request key)) w₁.keys
            ≡ (ok started, s))
  intercept-throw error app later throws =
      let (w₁, answered, once, retries) = throw-all error app throws in
      let (s, again) = retries later in (w₁, s, answered, once, again)
