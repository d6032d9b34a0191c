-- ===== src/Idempotency/Interceptor/Sent.antt =====
-- What a client reads of an answer, as the HTTP response has it and as a replay has it.
use mathlib.Core.Option
use nestjs_api_starter.Prelude.{
  ℕ, ◌≡◌, refl, ap, sym, ◌∙◌, Option, none, some, List, [], ◌∷◌, ◌++◌, inl, inr, Bool-cases,
  or_default, if◌then◌else◌,
}
use nestjs_api_starter.Json.{
  Text, Json, undefined, null, bool, number, str, arr, obj, Fields, end, field,
}
use nestjs_api_starter.JwtGuard.{same_units}
use nestjs_api_starter.Idempotency.Store.{to_json, to_headers}
use nestjs_api_starter.Idempotency.Interceptor.{
  HeaderValue, unset, text, texts, Response, status_of, capture_headers, captured, non_empty,
  header_fields, join_values,
}

-- the status of the response, and 200 without one
abbrev pub status_in : Option Response → ℕ
status_in response = or_default (Option.map (λ (r : Response). r.status_code) response) 200

-- JSON has no undefined.
abbrev pub body_in : Json → Json
body_in undefined = null
body_in null = null
body_in (bool b) = bool b
body_in (number n) = number n
body_in (str t) = str t
body_in (arr items) = arr items
body_in (obj fs) = obj fs

-- further values of a header: each behind a comma and a space
abbrev behind : List Text → Text
behind [] = []
behind (v ∷ vs) = (44 ∷ 32 ∷ v) ++ behind vs

-- the text of a header that is set
abbrev pub printed : HeaderValue → Option Text
printed unset = none
printed (text v) = some v
printed (texts []) = some []
printed (texts (v ∷ vs)) = some (v ++ behind vs)

abbrev or_else : Option Text → Option Text → Option Text
or_else none other = other
or_else (some v) other = some v

-- the text of a header of the response, by its name
abbrev pub header_of : Text → List (Text × HeaderValue) → Option Text
header_of name [] = none
header_of name ((key, value) ∷ rest) =
    let more = header_of name rest in
    if same_units key name then or_else (printed value) more else more

abbrev pub headers_in : Option Response → List (Text × HeaderValue)
headers_in none = []
headers_in (some response) = or_default response.headers []

-- a replayed header, by its name
abbrev field_of : Text → Fields → Option Json
field_of name end = none
field_of name (field key value rest) =
    let more = field_of name rest in if same_units key name then some value else more

abbrev pub replayed_header : Text → Option Fields → Option Json
replayed_header name none = none
replayed_header name (some fields) = field_of name fields

nil_right : (v : Text) → v ++ [] ≡ v
nil_right [] = refl
nil_right (c ∷ v) = ap (λ x. c ∷ x) (nil_right v)

join_values-behind : (v : Text) (vs : List Text) → join_values (v ∷ vs) ≡ v ++ behind vs
unfolding join_values
join_values-behind v [] = sym (nil_right v)
join_values-behind v (w ∷ vs) = ap (λ x. v ++ 44 ∷ 32 ∷ x) (join_values-behind w vs)

join_values-printed : (vs : List Text) → some (join_values vs) ≡ printed (texts vs)
unfolding join_values
join_values-printed [] = refl
join_values-printed (v ∷ vs) = ap (λ x. some x) (join_values-behind v vs)

header_fields-header_of :
    (name : Text) (headers : List (Text × HeaderValue))
    → field_of name (header_fields headers) ≡ Option.map str (header_of name headers)
unfolding header_fields
header_fields-header_of name [] = refl
header_fields-header_of name ((key, unset) ∷ rest) = elim (Bool-cases (same_units key name)) [
  | inl e ↦ rw e (header_fields-header_of name rest)
  | inr e ↦ rw e (header_fields-header_of name rest)
]
header_fields-header_of name ((key, text v) ∷ rest) = elim (Bool-cases (same_units key name)) [
  | inl e ↦ rw e refl
  | inr e ↦ rw e (header_fields-header_of name rest)
]
header_fields-header_of name ((key, texts vs) ∷ rest) = elim (Bool-cases (same_units key name)) [
  | inl e ↦ rw (e, ← join_values-printed vs) refl
  | inr e ↦ rw e (header_fields-header_of name rest)
]

non_empty-kept :
    (name : Text) (fields : Fields)
    → replayed_header name (to_headers (some (to_json (non_empty fields)))) ≡ field_of name fields
non_empty-kept name end = refl
non_empty-kept name (field key value rest) = refl

captured-header_of :
    (name : Text) (headers : Option (List (Text × HeaderValue)))
    → replayed_header name (to_headers (some (to_json (captured headers))))
      ≡ Option.map str (header_of name (or_default headers []))
unfolding captured
captured-header_of name none = refl
captured-header_of name (some headers) =
    non_empty-kept name (header_fields headers) ∙ header_fields-header_of name headers

-- The captured headers of a response, stored and read back, are its headers.
pub capture_headers-header_of :
    (name : Text) (response : Option Response)
    → replayed_header name (to_headers (some (to_json (capture_headers response))))
      ≡ Option.map str (header_of name (headers_in response))
unfolding capture_headers
capture_headers-header_of name none = refl
capture_headers-header_of name (some response) = captured-header_of name response.headers

pub status_of-status_in : (response : Option Response) → status_of response ≡ status_in response
status_of-status_in none = refl
status_of-status_in (some response) = refl

pub to_json-body_in : (body : Json) → to_json body ≡ body_in body
to_json-body_in undefined = refl
to_json-body_in null = refl
to_json-body_in (bool b) = refl
to_json-body_in (number n) = refl
to_json-body_in (str t) = refl
to_json-body_in (arr items) = refl
to_json-body_in (obj fs) = refl
