-- ===== src/Gateway/Filter.antt =====
-- filters/http-exception.filter.ts and interceptors/timeout.interceptor.ts. Logging is left out.
use Prim.Native.String.{◌++◌ as ◌++ₛ◌}
use shop_microservices.Prelude.{
  ℕ, String, Bool, true, false, Option, List, [], ◌∷◌, leb, ◌&&◌, if◌then◌else◌,
}
use shop_microservices.Exec.{Result, err}
use shop_microservices.Http.{
  Messages, one, many, null, string, with_message, other, HttpException, Thrown, http, unhandled,
  request_timeout,
}

-- `msg.join('; ')`
unfoldable pub join_messages : List String → String
join_messages [] = ""
join_messages (m ∷ []) = m
join_messages (m ∷ n ∷ messages) = m ++ₛ ("; " ++ₛ join_messages (n ∷ messages))

unfoldable pub message_text : Messages → String
unfolding join_messages
message_text (one message) = message
message_text (many messages) = join_messages messages

-- `extractMessage`; the value `null` is never the response of an exception here.
unfoldable pub extract_message : HttpException → String
unfolding message_text
extract_message exception = elim exception.response [
  | string text ↦ text
  | with_message messages ↦ message_text messages
  | null ↦ exception.message
  | other ↦ exception.message
]

-- `codes`
abbrev codes : List (ℕ × String)
codes =
    (400, "BAD_REQUEST")
    ∷ (401, "UNAUTHORIZED")
    ∷ (403, "FORBIDDEN")
    ∷ (404, "NOT_FOUND")
    ∷ (408, "REQUEST_TIMEOUT")
    ∷ (409, "CONFLICT")
    ∷ (422, "UNPROCESSABLE_ENTITY")
    ∷ (429, "TOO_MANY_REQUESTS")
    ∷ (500, "INTERNAL_ERROR")
    ∷ (502, "BAD_GATEWAY")
    ∷ (503, "SERVICE_UNAVAILABLE")
    ∷ []

unfoldable pub code_in : List (ℕ × String) → ℕ → String
code_in [] status = "UNKNOWN_ERROR"
code_in ((key, code) ∷ rest) status =
    let later = code_in rest status in if leb key status && leb status key then code else later

unfoldable pub to_error_code : ℕ → String
unfolding code_in
to_error_code = code_in codes

-- The answer to a request that failed, `ApiError`.
pub record ErrorAnswer : Type 0 where
  pub status_code : ℕ
  pub code : String
  pub message : String
  pub correlation_id : Option String
  pub timestamp : ℕ

unfoldable pub status_of : {E : Type 0} → Thrown E → ℕ
status_of (http exception) = exception.status
status_of (unhandled e) = 500

unfoldable pub message_of_thrown : {E : Type 0} → Thrown E → String
unfolding extract_message
message_of_thrown (http exception) = extract_message exception
message_of_thrown (unhandled e) = "Internal server error"

-- `catch`
unfoldable pub catch_exception : {E : Type 0} → ℕ → Option String → Thrown E → ErrorAnswer
unfolding status_of to_error_code message_of_thrown
catch_exception now correlation_id exception = record {
  status_code = status_of exception;
  code = to_error_code (status_of exception);
  message = message_of_thrown exception;
  correlation_id = correlation_id;
  timestamp = now;
}

-- `TimeoutInterceptor.intercept`: `late` says whether the handler gave nothing in time.
unfoldable pub with_timeout : {A : Type 0} → Bool → Result HttpException A → Result HttpException A
with_timeout true answer = err (request_timeout "Upstream service timed out")
with_timeout false answer = answer
