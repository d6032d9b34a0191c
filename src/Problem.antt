-- ===== src/Problem.antt =====
-- src/common/filters/problem-details.filter.ts: what a client reads of an exception, and whether it
-- is logged.
pub mod Status
pub mod Tests
use Prim.Native.String
use nestjs_api_starter.Prelude.{
  ℕ, zero, suc, ◌/◌, ◌%◌, String, ◌==◌, ltb, Bool, true, false, Option, none, some, List, [], ◌∷◌,
  str_eq, if◌then◌else◌,
}
use nestjs_api_starter.Effects.{
  HttpKind, bad_request, unauthorized, forbidden, not_found, conflict, service_unavailable,
  Exception, http, known, other,
}

-- src/common/problem-details/problem-details.types.ts
pub record ProblemDetails : Type 0 where
  pub type_uri : String
  pub title : String
  pub status : ℕ
  pub detail : Option String
  pub instance_url : Option String
  pub trace_id : Option String

-- The parts of the request that the filter reads.
pub record FailedRequest : Type 0 where
  pub url : String
  pub id : Option String

-- `HttpException.getStatus` and `.name` of the classes that the program throws
abbrev pub get_status : HttpKind → ℕ
get_status bad_request = 400
get_status unauthorized = 401
get_status forbidden = 403
get_status not_found = 404
get_status conflict = 409
get_status service_unavailable = 503

abbrev pub name_of : HttpKind → String
name_of bad_request = "BadRequestException"
name_of unauthorized = "UnauthorizedException"
name_of forbidden = "ForbiddenException"
name_of not_found = "NotFoundException"
name_of conflict = "ConflictException"
name_of service_unavailable = "ServiceUnavailableException"

-- a number in decimal, of up to 21 digits, as JavaScript prints it
abbrev digit : ℕ → String
digit n =
    if n == 0
    then "0"
    else if n == 1
    then "1"
    else if n == 2
    then "2"
    else if n == 3
    then "3"
    else if n == 4
    then "4"
    else if n == 5
    then "5"
    else if n == 6
    then "6"
    else if n == 7
    then "7"
    else if n == 8
    then "8"
    else "9"

unfoldable pub decimal_in : ℕ → ℕ → String
decimal_in zero n = ""
decimal_in (suc bound) n =
    let front = decimal_in bound (n / 10) in
    if ltb n 10 then digit n else String.◌++◌ front (digit (n % 10))

abbrev pub decimal : ℕ → String
decimal = decimal_in 21

-- the message of an exception's response: a text, or an object with one message, a list of them, or
-- none
pub data ExceptionResponse : Type 0 where
  plain : String → ExceptionResponse
  message : String → ExceptionResponse
  messages : List String → ExceptionResponse
  no_message : ExceptionResponse

-- `message.join(', ')`
unfoldable pub join_messages : List String → String
join_messages [] = ""
join_messages (m ∷ []) = m
join_messages (m ∷ n ∷ ms) =
    let rest = join_messages (n ∷ ms) in String.◌++◌ m (String.◌++◌ ", " rest)

unfoldable pub extract_message : ExceptionResponse → Option String
extract_message (plain m) = some m
extract_message (message m) = some m
extract_message (messages ms) = some (join_messages ms)
extract_message no_message = none

abbrev problem : String → String → ℕ → Option String → FailedRequest → ProblemDetails
problem type_uri title status detail request = record {
  type_uri = type_uri;
  title = title;
  status = status;
  detail = detail;
  instance_url = some request.url;
  trace_id = request.id;
}

abbrev unexpected : FailedRequest → ProblemDetails
unexpected =
    problem "https://httpstatuses.com/500" "Internal Server Error" 500
      (some "An unexpected error occurred.")

-- What is thrown, as the filter tells it apart: an `HttpException` with its status, its name and
-- its response; a `PrismaClientKnownRequestError` with its code; anything else.
pub data Thrown : Type 0 where
  http_exception : (status : ℕ) (name : String) (response : ExceptionResponse) → Thrown
  known_request_error : (code : String) → Thrown
  anything : String → Thrown

-- the exceptions of the program
abbrev pub thrown : Exception → Thrown
thrown (http kind m) = http_exception (get_status kind) (name_of kind) (message m)
thrown (known code) = known_request_error code
thrown (other m) = anything m

unfoldable pub to_problem_details : Thrown → FailedRequest → ProblemDetails
to_problem_details (http_exception status name response) request =
    problem (String.◌++◌ "https://httpstatuses.com/" (decimal status)) name status
      (extract_message response) request
to_problem_details (known_request_error code) request =
    if str_eq code "P2002"
    then problem "https://httpstatuses.com/409" "Conflict" 409
        (some "A record with this unique value already exists.") request
    else if str_eq code "P2025"
    then problem "https://httpstatuses.com/404" "Not Found" 404
        (some "The requested record was not found.") request
    else unexpected request
to_problem_details (anything m) request = unexpected request

-- what `catch` sends, and whether it logs the exception
pub record Caught : Type 0 where
  pub response_status : ℕ
  pub response_type : String
  pub response_body : ProblemDetails
  pub logged : Bool

unfoldable pub catch : Thrown → FailedRequest → Caught
unfolding to_problem_details
catch exception request =
    let problem = to_problem_details exception request in
    record {
      response_status = problem.status;
      response_type = "application/problem+json";
      response_body = problem;
      logged = problem.status == 500;
    }
