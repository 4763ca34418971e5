-- ===== src/Web/Accounts.antt =====
-- src/auth/auth.controller.ts: the routes below /auth, with the cookies they set. `unknown_agent`
-- stands for the text 'unknown'.
use video_calling.Base.{
  ℕ, ◌*◌, Bool, true, false, Option, none, some, List, [], ◌∷◌, or_else, or_option, truthy_option,
  if◌then◌else◌,
}
use video_calling.Database.{
  Database, type_error, unauthorized, no_refresh_token, Action, pure, throw, modify, ◌>>=◌, ◌>>◌,
}
use video_calling.External.{External}
use video_calling.Auth.{
  AuthTokens, Draws, Config, JwtPayload, register, login, refresh, logout, logout_all,
}
use video_calling.Web.{
  LoginAnswer, Answer, registered, tokens, refresh_token_cookie, xsrf_token_cookie, everywhere,
  refresh_path, SetCookie, set_cookie, clear_cookie,
}
use video_calling.Web.Address.{ForwardedFor, resolve_client_ip}
use video_calling.Database.{Text}

-- What the routes read of a request. `verified` is the payload of a token that passport accepted.
pub record HttpRequest : Type 0 where
  pub url : ℕ
  pub verified : Option JwtPayload
  pub forwarded_for : ForwardedFor
  pub remote_address : Option Text
  pub user_agent : Option ℕ
  pub refresh_cookie : Option ℕ
  pub body_refresh_token : Option ℕ

-- What a route returns, with the cookies of its response.
abbrev pub Route : Type 0
Route = Action Database (Option Answer × List SetCookie)

abbrev pub seven_days_ms : ℕ
seven_days_ms = 7 * 24 * 60 * 60 * 1000

abbrev pub one_day_ms : ℕ
one_day_ms = 24 * 60 * 60 * 1000

abbrev pub attach_cookies : (is_prod : Bool) → AuthTokens → List SetCookie
attach_cookies is_prod t =
    set_cookie refresh_token_cookie t.refresh_token true is_prod seven_days_ms refresh_path
    ∷ set_cookie xsrf_token_cookie t.csrf_token false is_prod one_day_ms everywhere
    ∷ []

abbrev pub clear_cookies : List SetCookie
clear_cookies =
    clear_cookie refresh_token_cookie refresh_path ∷ clear_cookie xsrf_token_cookie everywhere ∷ []

abbrev pub login_answer : AuthTokens → LoginAnswer
login_answer t = record {
  access_token = t.access_token;
  refresh_token = t.refresh_token;
  expires_in = t.expires_in;
}

abbrev pub give_tokens : (is_prod : Bool) → AuthTokens → Route
give_tokens is_prod t = pure (some (tokens (login_answer t)), attach_cookies is_prod t)

-- `req.user` of a route behind the guard.
abbrev pub with_user : (JwtPayload → Route) → Option JwtPayload → Route
with_user route none = throw type_error
with_user route (some user) = route user

abbrev pub raw_refresh_token : HttpRequest → Option ℕ
raw_refresh_token req = or_option req.refresh_cookie req.body_refresh_token

module _ (ext : External) (config : Config) (is_prod : Bool) (unknown_agent : ℕ) where
  unfoldable pub post_register : (user_id salt email password : ℕ) → Route
  post_register user_id salt email password =
      register ext config user_id salt email password >> pure (some registered, [])

  unfoldable pub post_login : Draws → (now email password : ℕ) → HttpRequest → Route
  post_login draws now email password req =
      login ext config draws now email password
        (resolve_client_ip req.forwarded_for req.remote_address)
        (or_else req.user_agent unknown_agent)
      >>= give_tokens is_prod

  -- `refresh` ignores the address and the user agent that it is given.
  abbrev pub refresh_with : Draws → (now : ℕ) → Option ℕ → Route
  refresh_with draws now none = throw (unauthorized no_refresh_token)
  refresh_with draws now (some raw) =
      if truthy_option (some raw)
      then refresh ext config draws now raw >>= give_tokens is_prod
      else throw (unauthorized no_refresh_token)

  unfoldable pub post_refresh : Draws → (now : ℕ) → HttpRequest → Route
  post_refresh draws now req = refresh_with draws now (raw_refresh_token req)

unfoldable pub post_logout : JwtPayload → Route
post_logout user = modify (logout user.sid user.sub) >> pure (none, clear_cookies)

unfoldable pub delete_sessions : JwtPayload → Route
delete_sessions user = modify (logout_all user.sub) >> pure (none, clear_cookies)
