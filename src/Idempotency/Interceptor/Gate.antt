-- ===== src/Idempotency/Interceptor/Gate.antt =====
-- When the handler runs, and what an interception answers without running it.
use nestjs_api_starter.Prelude.{ℕ, ◌+◌, String, ◌≡◌, ◌≢◌, refl, Option, none, some, true}
use nestjs_api_starter.Effects.{Result, ok, err, http, bad_request, conflict as conflict_status}
use nestjs_api_starter.Process.{Process, ◌then◌, run, steps}
use nestjs_api_starter.Process.Sequence.{run-then, run-zoom, steps-zoom}
use nestjs_api_starter.Prisma.{Delegate}
use nestjs_api_starter.Json.{Text}
use nestjs_api_starter.Idempotency.Store.{
  IdempotencyKey, same_key, IdempotencyIdentity, ReserveResult, started, in_progress, conflict,
  replay, reserve,
}
use nestjs_api_starter.Idempotency.Interceptor.{
  Request, Handled, Outcome, replayed, World, on_keys, on_app, intercept, extract_key, truthy,
  reserve_input, identity_for, after_reserve,
}

module _ {Keys App A B : Type 0} (clock : ℕ → ℕ) where
  pub run-on_keys :
      (p : Process Keys A) (next : Result A → Process (World Keys App) B) (w : World Keys App)
      → run clock (on_keys p then next) w
        ≡ run
            (λ n. clock (steps clock p w.keys + n))
            (next (run clock p w.keys).0)
            (record w { keys = (run clock p w.keys).1 })
  run-on_keys p next w = rw (
    run-then clock (on_keys p) next w,
    run-zoom (λ (w : World Keys App). w.keys) (λ s w. record w { keys = s }) (λ s w. refl)
        (λ s r w. refl) (λ w. refl) clock p w,
    steps-zoom (λ (w : World Keys App). w.keys) (λ s w. record w { keys = s }) (λ s w. refl)
        (λ s r w. refl) (λ w. refl) clock p w,
  )

  pub run-on_app :
      (p : Process App A) (next : Result A → Process (World Keys App) B) (w : World Keys App)
      → run clock (on_app p then next) w
        ≡ run
            (λ n. clock (steps clock p w.app + n))
            (next (run clock p w.app).0)
            (record w { app = (run clock p w.app).1 })
  run-on_app p next w = rw (
    run-then clock (on_app p) next w,
    run-zoom (λ (w : World Keys App). w.app) (λ a w. record w { app = a }) (λ s w. refl)
        (λ s r w. refl) (λ w. refl) clock p w,
    steps-zoom (λ (w : World Keys App). w.app) (λ a w. record w { app = a }) (λ s w. refl)
        (λ s r w. refl) (λ w. refl) clock p w,
  )

-- What a refused reservation answers to the client.
abbrev pub Answers : ReserveResult → Result Outcome → Type 0
Answers (replay status body headers) r = r ≡ ok (replayed status body headers)
Answers in_progress r =
    r ≡ err (http conflict_status "A request with this Idempotency-Key is already in progress.")
Answers conflict r =
    r ≡ err (http conflict_status "Idempotency-Key was already used with a different request.")
Answers started r = ⊥

module _ (sha256 : Text → String) (ttl : Option ℕ) (t : Delegate IdempotencyKey same_key)
    {App : Type 0} (handle : Process App Handled) (clock : ℕ → ℕ) (request : Request) where
  -- A route that requires a key, called without one, fails at once: nothing is written and the
  -- handler does not run.
  pub intercept-no_key :
      (w : World t.State App)
      → truthy (extract_key request.key_header) ≡ none
      → run clock (intercept sha256 ttl t handle true request) w
        ≡ (err (http bad_request "Idempotency-Key header is required."), w)
  unfolding intercept run
  intercept-no_key w e = rw (intercept, e)

  module _ (key : String) (keyed : truthy (extract_key request.key_header) ≡ some key)
      (w : World t.State App) where
    abbrev reservation : Result ReserveResult × t.State
    reservation = run clock (reserve t (reserve_input sha256 ttl t handle request key)) w.keys

    abbrev resumed : ℕ → ℕ
    resumed n =
        clock (steps clock (reserve t (reserve_input sha256 ttl t handle request key)) w.keys + n)

    pub run-intercept :
        run clock (intercept sha256 ttl t handle true request) w
        ≡ run resumed
            (after_reserve sha256 ttl t handle (identity_for request key) reservation.0)
            (record w { keys = reservation.1 })
    unfolding intercept
    run-intercept =
        rw (intercept, keyed)
          (run-on_keys clock (reserve t (reserve_input sha256 ttl t handle request key))
            (after_reserve sha256 ttl t handle (identity_for request key)) w)

    only_started :
        (r : Result ReserveResult)
        → r ≢ ok started
        → (run resumed
            (after_reserve sha256 ttl t handle (identity_for request key) r)
            (record w { keys = reservation.1 })).1.app
          ≡ w.app
    unfolding run
    only_started (ok (replay status body headers)) ne = refl
    only_started (ok in_progress) ne = refl
    only_started (ok conflict) ne = refl
    only_started (ok started) ne = absurd (ne refl)
    only_started (err e) ne = refl

refused :
    (sha256 : Text → String) (ttl : Option ℕ) (t : Delegate IdempotencyKey same_key) {App : Type 0}
    (handle : Process App Handled) (d : IdempotencyIdentity) (r : ReserveResult) (c : ℕ → ℕ)
    (w : World t.State App)
    → r ≢ started
    → Answers r (run c (after_reserve sha256 ttl t handle d (ok r)) w).0
      × ((run c (after_reserve sha256 ttl t handle d (ok r)) w).1 ≡ w)
unfolding run
refused sha256 ttl t handle d (replay status body headers) c w ne = (refl, refl)
refused sha256 ttl t handle d in_progress c w ne = (refl, refl)
refused sha256 ttl t handle d conflict c w ne = (refl, refl)
refused sha256 ttl t handle d started c w ne = absurd (ne refl)

-- The handler has an effect only behind a reservation: if `reserve` answers anything but `started`,
-- or fails, the state of the application is as it was.
pub app-intercept :
    (sha256 : Text → String) (ttl : Option ℕ) (t : Delegate IdempotencyKey same_key) {App : Type 0}
    (handle : Process App Handled) (clock : ℕ → ℕ) (request : Request) (key : String)
    (w : World t.State App)
    → truthy (extract_key request.key_header) ≡ some key
    → (run clock (reserve t (reserve_input sha256 ttl t handle request key)) w.keys).0 ≢ ok started
    → (run clock (intercept sha256 ttl t handle true request) w).1.app ≡ w.app
app-intercept sha256 ttl t handle clock request key w keyed ne =
    rw (run-intercept sha256 ttl t handle clock request key keyed w)
      (only_started sha256 ttl t handle clock request key keyed w _ ne)

-- A reservation that is refused decides the answer: a replay is passed to the client, and a key in
-- progress or used with another request is a 409 with its own message.
pub intercept-refused :
    (sha256 : Text → String) (ttl : Option ℕ) (t : Delegate IdempotencyKey same_key) {App : Type 0}
    (handle : Process App Handled) (clock : ℕ → ℕ) (request : Request) (key : String)
    (w : World t.State App) (s : t.State) (r : ReserveResult)
    → truthy (extract_key request.key_header) ≡ some key
    → run clock (reserve t (reserve_input sha256 ttl t handle request key)) w.keys ≡ (ok r, s)
    → r ≢ started
    → Answers r (run clock (intercept sha256 ttl t handle true request) w).0
      × ((run clock (intercept sha256 ttl t handle true request) w).1 ≡ record w { keys = s })
intercept-refused sha256 ttl t handle clock request key w s r keyed e ne =
    rw (run-intercept sha256 ttl t handle clock request key keyed w, e)
      (refused sha256 ttl t handle (identity_for request key) r _ (record w { keys = s }) ne)
