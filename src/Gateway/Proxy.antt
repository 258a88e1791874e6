-- ===== src/Gateway/Proxy.antt =====
-- modules/proxy/proxy.service.ts. `fetch` behind the circuit breaker of opossum is a parameter: its
-- outcome is an argument.
pub mod Identity
use Prim.Native.String.{◌++◌ as ◌++ₛ◌}
use text.Mathlib.Text.{find?}
use shop_microservices.Prelude.{
  ℕ, String, ◌==◌, Bool, true, false, ◌||◌, not, Option, none, some, List, [], ◌∷◌, ◌++◌, leb,
  if◌then◌else◌,
}
use shop_microservices.Exec.{Exec, Result, ok, err}
use shop_microservices.Shared.Roles.{join_roles}
use shop_microservices.Http.{
  Json, null, string, HttpException, bad_gateway, service_unavailable, RequestUser, Headers, Answer,
  correlation_id_header, user_id_header, user_email_header, user_roles_header,
  internal_secret_header,
}

pub data ServiceName : Type 0 where
  auth_service user_service product_service order_service payment_service : ServiceName

unfoldable pub service_name : ServiceName → String
service_name auth_service = "authService"
service_name user_service = "userService"
service_name product_service = "productService"
service_name order_service = "orderService"
service_name payment_service = "paymentService"

-- `B` is what the body of a request may be; an absent one is `none`.
pub record ProxyRequestOptions (B : Type 0) : Type 0 where
  pub method : String
  pub path : String
  pub body : Option B
  pub user : Option RequestUser
  pub correlation_id : Option String
  pub headers : Headers

-- The arguments of `fetch`.
pub record FetchRequest : Type 0 where
  pub url : String
  pub method : String
  pub headers : Headers
  pub body : Option String

-- A response; `json` is what `response.json()` gives, `none` if it throws.
pub record FetchResponse : Type 0 where
  pub status : ℕ
  pub content_length : Option String
  pub status_text : String
  pub json : Option Json

-- What `breaker.fire` throws.
pub record FetchError : Type 0 where
  pub code : Option String
  pub message : String

pub record ProxyResponse : Type 0 where
  pub status : ℕ
  pub data_ : Json

pub record Config (B : Type 0) : Type 0 where
  pub service_url : ServiceName → String
  pub internal_secret : String
  pub stringify : B → String

-- `correlationId && { … }`: the empty text is falsy.
unfoldable pub correlation_headers : Option String → Headers
correlation_headers none = []
correlation_headers (some id) = if id == "" then [] else (correlation_id_header, id) ∷ []

unfoldable pub user_headers : Option RequestUser → Headers
unfolding join_roles
user_headers none = []
user_headers (some user) =
    (user_id_header, user.id)
    ∷ (user_email_header, user.email)
    ∷ (user_roles_header, join_roles user.roles)
    ∷ []

unfoldable pub content_type_headers : {B : Type 0} → Option B → Headers
content_type_headers none = []
content_type_headers (some body) = ("content-type", "application/json") ∷ []

module _ {B : Type 0} (config : Config B) where
  unfoldable pub proxy_headers : ProxyRequestOptions B → Headers
  unfolding content_type_headers correlation_headers user_headers
  proxy_headers options =
      content_type_headers options.body
      ++ ((internal_secret_header, config.internal_secret)
          ∷ (correlation_headers options.correlation_id
              ++ (user_headers options.user ++ options.headers)))

  unfoldable pub fetch_request : ServiceName → ProxyRequestOptions B → FetchRequest
  unfolding proxy_headers
  fetch_request service options = record {
    url = config.service_url service ++ₛ options.path;
    method = options.method;
    headers = proxy_headers options;
    body = elim options.body [ none ↦ none | some body ↦ some (config.stringify body) ];
  }

-- `message.includes('Breaker is open')`
unfoldable pub includes_open : String → Bool
includes_open message = elim (find? message "Breaker is open") [ none ↦ false | some at ↦ true ]

unfoldable pub has_code : Option String → String → Bool
has_code none code = false
has_code (some c) code = c == code

unfoldable pub on_fetch_error : ServiceName → FetchError → HttpException
unfolding includes_open has_code service_name
on_fetch_error service error =
    if has_code error.code "EOPENBREAKER" || includes_open error.message
    then service_unavailable (service_name service ++ₛ " is temporarily unavailable")
    else service_unavailable (service_name service ++ₛ " is unreachable")

-- `response.status !== 204 && response.headers.get('content-length') !== '0'`
unfoldable pub has_content : FetchResponse → Bool
unfolding has_code
has_content response =
    if leb response.status 204
    then (if leb 204 response.status then false else not (has_code response.content_length "0"))
    else not (has_code response.content_length "0")

-- `data ?? response.statusText`
unfoldable pub error_body : Json → String → Json
error_body null status_text = string status_text
error_body body status_text = body

-- The answer to a request whose body was read as `data`. The message of the exception is what NestJS
-- gives one whose response has none of its own.
unfoldable pub settle : FetchResponse → Json → Answer ProxyResponse
unfolding error_body
settle response body =
    if leb 400 response.status
    then err (record {
      status = response.status;
      response = error_body body response.status_text;
      message = "Http Exception";
    })
    else ok (record { status = response.status; data_ = body })

unfoldable pub read_response : ServiceName → FetchResponse → Answer ProxyResponse
unfolding has_content settle service_name
read_response service response =
    if has_content response
    then elim response.json [
      | none ↦ err (bad_gateway (service_name service ++ₛ " returned an invalid response"))
      | some body ↦ settle response body
    ]
    else settle response null

-- The error that the open breaker throws in place of calling `fetch`.
unfoldable pub is_breaker_open : Result FetchError FetchResponse → Bool
unfolding has_code
is_breaker_open (err error) = has_code error.code "EOPENBREAKER"
is_breaker_open (ok response) = false

-- The network behind the breaker: what `breaker.fire` gives for each request.
abbrev pub Fetch : Type 0
Fetch = ServiceName → FetchRequest → Result FetchError FetchResponse

module _ {B : Type 0} (config : Config B) (fetch : Fetch) where
  unfoldable pub answer_of : ServiceName → Result FetchError FetchResponse → Answer ProxyResponse
  unfolding on_fetch_error read_response
  answer_of service (err error) = err (on_fetch_error service error)
  answer_of service (ok response) = read_response service response

  -- The state is the list of the requests that were handed to `fetch`: the open breaker throws its
  -- error without a call.
  unfoldable pub proxy :
      ServiceName
      → ProxyRequestOptions B
      → Exec HttpException (List (ServiceName × FetchRequest)) ProxyResponse
  unfolding fetch_request answer_of is_breaker_open
  proxy service options requests =
      let request = fetch_request config service options in
      let outcome = fetch service request in
      (
        answer_of service outcome,
        if is_breaker_open outcome then requests else requests ++ ((service, request) ∷ []),
      )
