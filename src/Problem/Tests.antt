-- ===== src/Problem/Tests.antt =====
-- The filter at concrete exceptions.
use nestjs_api_starter.Prelude.{◌≡◌, refl, true, false, none, some, [], ◌∷◌, eq_iff, arith}
use nestjs_api_starter.Effects.{http, not_found}
use nestjs_api_starter.Problem.{
  FailedRequest, catch, join_messages, to_problem_details, thrown, http_exception,
  known_request_error, anything, messages, no_message, extract_message, decimal_in,
}
use nestjs_api_starter.Problem.Status.{IsUnexpected, catch-unexpected}

abbrev get_users : FailedRequest
get_users = record { url = "/users"; id = some "r1" }

catch_run : catch (thrown (http not_found "User not found.")) get_users ≡ record {
  response_status = 404;
  response_type = "application/problem+json";
  response_body = record {
    type_uri = "https://httpstatuses.com/404";
    title = "NotFoundException";
    status = 404;
    detail = some "User not found.";
    instance_url = some "/users";
    trace_id = some "r1";
  };
  logged = false;
}
unfolding catch to_problem_details extract_message decimal_in
catch_run = refl

-- A validation error has a list of messages; an exception without a message has no detail; the rate
-- limiter's class is none of the program's.
details_run :
    ((to_problem_details
        (http_exception 400 "BadRequestException" (messages ("a" ∷ "b" ∷ [])))
        get_users).detail
      ≡ some "a, b")
    × ((to_problem_details (http_exception 429 "ThrottlerException" no_message) get_users).type_uri
        ≡ "https://httpstatuses.com/429")
    × ((to_problem_details (http_exception 429 "ThrottlerException" no_message) get_users).detail
        ≡ none)
unfolding to_problem_details extract_message join_messages decimal_in
details_run = (refl, refl, refl)

join_messages_run : join_messages ("a" ∷ "b" ∷ "c" ∷ []) ≡ "a, b, c"
unfolding join_messages
join_messages_run = refl

timeout-IsUnexpected : IsUnexpected (known_request_error "P2024")
timeout-IsUnexpected =
    ((λ e. ground (arith, eq_iff "P2024" "P2002")), λ e. ground (arith, eq_iff "P2024" "P2025"))

catch-unexpected_example :
    (catch (known_request_error "P2024") get_users ≡ catch (anything "secret") get_users)
    × ((catch (known_request_error "P2024") get_users).response_status ≡ 500)
    × ((catch (known_request_error "P2024") get_users).logged ≡ true)
catch-unexpected_example =
    catch-unexpected (known_request_error "P2024") (anything "secret") get_users
      timeout-IsUnexpected tt
