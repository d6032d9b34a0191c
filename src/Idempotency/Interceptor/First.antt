-- ===== src/Idempotency/Interceptor/First.antt =====
-- The first request with a fresh key, up to the end of its handler.
use nestjs_api_starter.Prelude.{
  ℕ, ◌+◌, String, ◌≡◌, ap, ◌∙◌, Option, some, ◌∷◌, true, false, inl, inr, Apart, All, keep, not,
}
use nestjs_api_starter.Effects.{Result, ok}
use nestjs_api_starter.Process.{Process, ◌then◌, run, steps}
use nestjs_api_starter.Prisma.{Delegate, IsUp}
use nestjs_api_starter.Json.{Text}
use nestjs_api_starter.Idempotency.Store.{
  IdempotencyKey, same_key, valid_where, expired_where, has_identity, IdempotencyIdentity,
  CompleteIdempotencyInput, ReserveResult, reserve, complete, completed, release, pending_where,
  pending_row,
}
use nestjs_api_starter.Idempotency.Store.Reserve.{reserve-fresh_steps}
use nestjs_api_starter.Idempotency.Interceptor.{
  Request, Handled, World, on_app, intercept, extract_key, truthy, reserve_input, identity_for,
  after_reserve, after_handle,
}
use nestjs_api_starter.Idempotency.Interceptor.Gate.{run-intercept, run-on_app}

-- the clock readings after those of the reservation
abbrev pub late : (ℕ → ℕ) → ℕ → ℕ
late clock n = clock (3 + n)

-- the clock readings after the handler's
abbrev pub after : {S App A : Type 0} → (ℕ → ℕ) → Process App A → World S App → ℕ → ℕ
after clock handle w n = late clock (steps (late clock) handle w.app + n)

module _ (t : Delegate IdempotencyKey same_key) (up : IsUp t) where
  pub complete_up :
      (input : CompleteIdempotencyInput) (s : t.State)
      → (s' : t.State) × ((c : ℕ → ℕ) → run c (complete t input) s ≡ (ok tt, s'))
  unfolding run complete
  complete_up input s = elim (t.update_many_law (has_identity input.identity) (completed input) s) [
    | inl (s', e, _) ↦ (s', λ c. rw (complete, run, e))
    | inr (x, e) ↦ absurd (up.updates _ _ s x e)
  ]

  pub release_up :
      (d : IdempotencyIdentity) (s : t.State)
      → (s' : t.State) × ((c : ℕ → ℕ) → run c (release t d) s ≡ (ok tt, s'))
  unfolding run release
  release_up d s = elim (t.delete_many_law (pending_where d) s) [
    | inl (s', e, _) ↦ (s', λ c. rw (release, run, e))
    | inr (x, e) ↦ absurd (up.deletes _ s x e)
  ]

module _ (sha256 : Text → String) (ttl : Option ℕ) (t : Delegate IdempotencyKey same_key)
    (up : IsUp t) {App : Type 0} (handle : Process App Handled) (clock : ℕ → ℕ) (request : Request)
    (key : String) (keyed : truthy (extract_key request.key_header) ≡ some key)
    (w : World t.State App) (unique : Apart same_key (t.rows w.keys))
    (free : All
      (λ r. valid_where (identity_for request key) (clock 0) r ≡ false)
      (t.rows w.keys)) where
  -- the reservation of the first request
  pub record Reserved (s : t.State) : Type 0 where
    pub id : String
    pub rows :
        t.rows s
        ≡ pending_row (reserve_input sha256 ttl t handle request key) (clock 2) id
          ∷ keep (λ r. not (expired_where (identity_for request key) (clock 0) r)) (t.rows w.keys)
    pub continues :
        run clock (intercept sha256 ttl t handle true request) w
        ≡ run
            (λ n. (late clock) (steps (late clock) handle w.app + n))
            (after_handle sha256 ttl t handle
              (identity_for request key)
              (run (late clock) handle w.app).0)
            (record { keys = s; app = (run (late clock) handle w.app).1 })

  pub reserved : (s : t.State) × Reserved s
  reserved =
      let input = reserve_input sha256 ttl t handle request key in
      let (id, s₁, e, three, rows) = reserve-fresh_steps t up clock input w.keys free in
      (
        s₁,
        record {
          id = id;
          rows = rows;
          continues =
              run-intercept sha256 ttl t handle clock request key keyed w
              ∙ ap
                  (λ (r : Result ReserveResult × t.State).
                    run (λ n. clock (steps clock (reserve t input) w.keys + n))
                      (after_reserve sha256 ttl t handle (identity_for request key) r.0)
                      (record w { keys = r.1 }))
                  e
              ∙ ap
                  (λ (k : ℕ).
                    run (λ n. clock (k + n))
                      (on_app handle
                        then after_handle sha256 ttl t handle (identity_for request key))
                      (record w { keys = s₁ }))
                  three
              ∙ run-on_app (late clock) handle
                  (after_handle sha256 ttl t handle (identity_for request key))
                  (record w { keys = s₁ });
        },
      )
