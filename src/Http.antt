-- ===== src/Http.antt =====
-- What the HTTP layers share: the exceptions of NestJS by status and response, the headers between
-- the gateway and the services (`HEADERS` of packages/shared), and RequestUser.
use shop_microservices.Prelude.{ℕ, String, ◌==◌, Option, none, some, List, [], ◌∷◌, if◌then◌else◌}
use shop_microservices.Exec.{Exec, Result, ok, err}
use shop_microservices.Shared.{Role}

-- A JSON value, as far as the gateway looks into it.
pub data Messages : Type 0 where
  one : String → Messages
  many : List String → Messages

pub data Json : Type 0 where
  null : Json
  string : String → Json
  with_message : Messages → Json
  other : Json

pub record HttpException : Type 0 where
  pub status : ℕ
  pub response : Json
  pub message : String

-- `new ForbiddenException(message)` and its like answer with an object that holds the message.
abbrev pub exception : ℕ → String → HttpException
exception status message = record {
  status = status;
  response = Json.with_message (one message);
  message = message;
}

abbrev pub bad_request : String → HttpException
bad_request = exception 400

abbrev pub unauthorized : String → HttpException
unauthorized = exception 401

abbrev pub forbidden : String → HttpException
forbidden = exception 403

abbrev pub not_found : String → HttpException
not_found = exception 404

abbrev pub conflict : String → HttpException
conflict = exception 409

abbrev pub request_timeout : String → HttpException
request_timeout = exception 408

abbrev pub bad_gateway : String → HttpException
bad_gateway = exception 502

abbrev pub service_unavailable : String → HttpException
service_unavailable = exception 503

pub record RequestUser : Type 0 where
  pub id : String
  pub email : String
  pub roles : List Role

-- A header object: of two entries with one name the later one counts.
abbrev pub Headers : Type 0
Headers = List (String × String)

unfoldable pub get_header : String → Headers → Option String
get_header name [] = none
get_header name ((key, value) ∷ headers) = elim (get_header name headers) [
  | some later ↦ some later
  | none ↦ if key == name then some value else none
]

-- `HEADERS`
abbrev pub correlation_id_header : String
correlation_id_header = "x-correlation-id"

abbrev pub user_id_header : String
user_id_header = "x-user-id"

abbrev pub user_email_header : String
user_email_header = "x-user-email"

abbrev pub user_roles_header : String
user_roles_header = "x-roles"

abbrev pub internal_secret_header : String
internal_secret_header = "x-internal-secret"

-- A handler that answers or throws.
abbrev pub Answer : Type 0 → Type 0
Answer A = Result HttpException A

-- What a controller throws: an exception with a status, or the error of the service, which NestJS
-- answers with 500.
pub data Thrown (E : Type 0) : Type 0 where
  http : HttpException → Thrown E
  unhandled : E → Thrown E

module _ {E S A : Type 0} where
  abbrev pub rethrown : (E → Thrown E) → Result E A × S → Result (Thrown E) A × S
  rethrown translate (ok a, s) = (ok a, s)
  rethrown translate (err e, s) = (err (translate e), s)

  -- `try { return await call } catch (e) { … throw … }`
  abbrev pub call : (E → Thrown E) → Exec E S A → Exec (Thrown E) S A
  call translate m s = rethrown translate (m s)

-- A header or parameter that is absent is as falsy as the empty text.
abbrev pub or_empty : Option String → String
or_empty none = ""
or_empty (some text) = text
