-- ===== src/Web.antt =====
-- The REST side: what src/main.ts puts around every route (src/common/filters and
-- src/common/interceptors), with the guard of src/auth/guards/jwt.guard.ts. The requests and the
-- routes are in the children. Routing, the parsing of requests, throttling and the validation of
-- bodies are the framework's.
pub mod Accounts
pub mod Address
pub mod Routes
pub mod Serving
pub mod Logins
mod Tests
use video_calling.Base.{
  ℕ, Bool, true, false, not, ltb, Option, none, some, List, [], ◌∷◌, if◌then◌else◌,
}
use video_calling.Database.{
  Database, Message, unexpected_error, Error, unauthorized, bad_request, forbidden, not_found,
  conflict, Result, ok, err, CallSession, Participant,
}
use video_calling.Contacts.{ListedContact}

-- `HttpException.getResponse()`: a text, an object whose `message` is one text or several, or an
-- object without.
pub data Content : Type 0 where
  plain one_message : Message → Content
  many_messages : List Message → Content
  no_message : Content

pub record HttpException : Type 0 where
  pub status : ℕ
  pub content : Content
  pub message : Message

-- What a route throws.
pub data Thrown : Type 0 where
  http_exception : HttpException → Thrown
  other_error : Thrown

-- `ErrorResponse`. The first of no messages is `undefined`, which JSON leaves out.
pub record ErrorResponse : Type 0 where
  pub status_code : ℕ
  pub message : Option Message
  pub timestamp : ℕ
  pub path : ℕ

abbrev pub content_message : (own : Message) → Content → Option Message
content_message own (plain text) = some text
content_message own (one_message text) = some text
content_message own (many_messages []) = none
content_message own (many_messages (text ∷ texts)) = some text
content_message own no_message = some own

abbrev pub extract_message : Thrown → Option Message
extract_message other_error = some unexpected_error
extract_message (http_exception e) = content_message e.message e.content

abbrev pub status_of : Thrown → ℕ
status_of other_error = 500
status_of (http_exception e) = e.status

abbrev pub is_server_error : ℕ → Bool
is_server_error status = not (ltb status 500)

-- `GlobalExceptionFilter.catch`, without its log lines.
unfoldable pub catch_exception : (now url : ℕ) → Thrown → ErrorResponse
catch_exception now url exception = record {
  status_code = status_of exception;
  message =
      if is_server_error (status_of exception)
      then some unexpected_error
      else extract_message exception;
  timestamp = now;
  path = url;
}

-- The exceptions of the services, as the framework builds them from one text.
abbrev pub with_status : ℕ → Message → Thrown
with_status status message =
    http_exception (record { status = status; content = one_message message; message = message })

abbrev pub thrown : Error → Thrown
thrown (unauthorized m) = with_status 401 m
thrown (bad_request m) = with_status 400 m
thrown (forbidden m) = with_status 403 m
thrown (not_found m) = with_status 404 m
thrown (conflict m) = with_status 409 m
thrown _ = other_error

-- What login and refresh answer: the tokens without the CSRF token.
pub record LoginAnswer : Type 0 where
  pub access_token : ℕ
  pub refresh_token : ℕ
  pub expires_in : ℕ

-- What the routes return.
pub data Answer : Type 0 where
  registered : Answer
  tokens : LoginAnswer → Answer
  calls : List CallSession → Answer
  call : CallSession → Answer
  participants : List Participant → Answer
  contacts : List ListedContact → Answer
  saved : Bool → Answer

-- `CookieName`, and the path of a cookie.
pub data CookieName : Type 0 where
  refresh_token_cookie xsrf_token_cookie : CookieName

pub data CookiePath : Type 0 where
  everywhere refresh_path : CookiePath

-- `sameSite` is 'lax' for every cookie.
pub data SetCookie : Type 0 where
  set_cookie :
      CookieName → (value : ℕ) (http_only secure : Bool) (max_age : ℕ) → CookiePath → SetCookie
  clear_cookie : CookieName → CookiePath → SetCookie

-- A response's body: nothing, `{ success: true, data }`, or an error.
pub data Body : Type 0 where
  no_body : Body
  envelope : (success : Bool) → Answer → Body
  failure : ErrorResponse → Body

pub record Reply : Type 0 where
  pub status : ℕ
  pub body : Body
  pub cookies : List SetCookie

-- `ResponseInterceptor.intercept`
abbrev pub intercept : Option Answer → Body
intercept none = no_body
intercept (some answer) = envelope true answer

-- A route sets its cookies last, so that a route that throws sets none.
unfoldable pub respond : (status now url : ℕ) → Result (Option Answer × List SetCookie) → Reply
unfolding catch_exception
respond status now url (ok (answer, cookies)) = record {
  status = status;
  body = intercept answer;
  cookies = cookies;
}
respond status now url (err e) =
    let error = catch_exception now url (thrown e) in
    record { status = error.status_code; body = failure error; cookies = [] }
