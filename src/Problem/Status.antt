-- ===== src/Problem/Status.antt =====
-- The answer to an exception: its status, and what it does not tell.
use nestjs_api_starter.Prelude.{◌≡◌, ◌≢◌, refl, sym, ap, ◌∙◌, true, eq_iff, arith}
use nestjs_api_starter.Problem.{
  FailedRequest, Caught, Thrown, http_exception, known_request_error, anything, to_problem_details,
  catch,
}

-- An exception that the program did not foresee: no HTTP exception, and no request error of Prisma
-- with one of the two codes that have an answer of their own.
abbrev pub IsUnexpected : Thrown → Type 0
IsUnexpected (http_exception status name response) = ⊥
IsUnexpected (known_request_error code) = (code ≢ "P2002") × (code ≢ "P2025")
IsUnexpected (anything m) = Unit

unexpected-body :
    (e : Thrown) (request : FailedRequest)
    → IsUnexpected e
    → catch e request ≡ catch (anything "") request
unfolding catch to_problem_details
unexpected-body (http_exception status name response) request h = absurd h
unexpected-body (known_request_error code) request h =
    ground (arith, eq_iff code "P2002", eq_iff code "P2025")
unexpected-body (anything m) request h = refl

-- An exception is unforeseen if it is no HTTP exception and no request error of Prisma with one of
-- the two codes that have answers of their own. The answers to two unforeseen exceptions are the
-- same, whatever the exceptions hold: a 500, which is logged.
pub catch-unexpected :
    (e f : Thrown) (request : FailedRequest)
    → IsUnexpected e
    → IsUnexpected f
    → (catch e request ≡ catch f request)
      × ((catch e request).response_status ≡ 500)
      × ((catch e request).logged ≡ true)
unfolding catch to_problem_details
catch-unexpected e f request u v =
    let same_e = unexpected-body e request u in
    (
      same_e ∙ sym (unexpected-body f request v),
      ap (λ (c : Caught). c.response_status) same_e,
      ap (λ (c : Caught). c.logged) same_e,
    )
