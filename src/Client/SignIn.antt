-- ===== src/Client/SignIn.antt =====
-- Signing in and out in the browser, with the answers of this server
-- (frontend/src/hooks/useAuth.tsx).
use video_calling.Base.{
  ℕ, ◌≡◌, ◌≢◌, inl, inr, refl, ap, ◌∙◌, arith, Bool, true, false, Option, none, some, List, [], ◌∷◌,
  ◌++◌, Bool-cases, is_some, non_empty,
}
use video_calling.External.{External}
use video_calling.Auth.{AuthTokens, Config}
use video_calling.Web.{Reply}
use video_calling.Web.Logins.{signed_in_reply}
use video_calling.Client.{HttpCall, auth_login, Tokens, Json, Response, is_ok, Server, Tab}
use video_calling.Client.Api.{
  first_call, json_type, send, refresh_auth_token, api_fetch, after_first,
}
use video_calling.Client.Refreshing.{
  IsTokenless, response_of, refresh_answer, read_body, refresh_auth_token-reply,
}
use video_calling.Client.Session.{
  Provider, Page, login_page, dashboard_page, request_options, set_loading, call_api, initialised,
  init_auth, logged_in, stop_loading, with_data, with_fields, login, register, logout, mount,
}

-- Whatever the server answers, and even when it does not, the provider stops loading: after the
-- first refresh of a mounted provider, after a login, a registration and a logout.
pub provider-loaded :
    (server : Server) (p : Provider)
    → ((init_auth server true p).is_loading ≡ false)
      × ((email body : ℕ) → (login server email body p).1.is_loading ≡ false)
      × ((email body : ℕ) → (register server email body p).1.is_loading ≡ false)
      × ((logout server p).is_loading ≡ false)
unfolding init_auth login register logout
provider-loaded server p =
    (first (refresh_auth_token server p.tab), λ email. λ body. refl, λ email. λ body. refl, refl)
  where
    first : (r : Bool × Tab) → (initialised server true r p).is_loading ≡ false
    first (true, tab) = refl
    first (false, tab) = refl

-- Whatever the server answers, a logout leaves no token and no e-mail address in the tab, nobody
-- authenticated, and opens the login page last.
pub logout-IsTokenless :
    (server : Server) (p : Provider)
    → IsTokenless (logout server p).tab
      × ((logout server p).is_authenticated ≡ false)
      × ((logout server p).user_email ≡ none)
      × ((logout server p).tab.user_email ≡ none)
      × ((before : List Page) × ((logout server p).pushed ≡ before ++ login_page ∷ []))
unfolding logout
logout-IsTokenless server p = ((refl, refl), refl, refl, refl, (_, refl))

-- The request of a login.
abbrev pub login_call : (body : ℕ) → Tab → HttpCall
login_call body tab = first_call auth_login (request_options (some json_type) (some body)) tab

api_fetch-login :
    (server : Server) (body : ℕ) (tab : Tab)
    → api_fetch server auth_login (request_options (some json_type) (some body)) tab
      ≡ (server (tab.sent ++ login_call body tab ∷ []), send (login_call body tab) tab)
unfolding api_fetch
api_fetch-login server body tab = by_answer (server (tab.sent ++ login_call body tab ∷ []))
  where
    by_answer :
        (answer : Option Response)
        → after_first server (login_call body tab) answer (send (login_call body tab) tab)
          ≡ (answer, send (login_call body tab) tab)
    by_answer none = refl
    by_answer (some response) = ground arith

-- The provider once the request of the login is answered.
abbrev pub asked : (body : ℕ) → Provider → Provider
asked body p = record p { is_loading = true; tab = send (login_call body p.tab) p.tab }

call_api-login :
    (server : Server) (body : ℕ) (p : Provider)
    → call_api server auth_login (request_options (some json_type) (some body)) (set_loading true p)
      ≡ (server (p.tab.sent ++ login_call body p.tab ∷ []), asked body p)
call_api-login server body p = rw (api_fetch-login server body p.tab) (ground arith)

login-asked :
    (server : Server) (email body : ℕ) (p : Provider)
    → login server email body p
      ≡ stop_loading server
          (logged_in server email (server (p.tab.sent ++ login_call body p.tab ∷ []), asked body p))
unfolding login
login-asked server email body p =
    ap (λ r. stop_loading server (logged_in server email r)) (call_api-login server body p)

-- What a login that throws leaves as it was.
pub record IsUnchanged (p p' : Provider) : Type 0 where
  pub authenticated : p'.is_authenticated ≡ p.is_authenticated
  pub email : p'.user_email ≡ p.user_email
  pub pages : p'.pushed ≡ p.pushed
  pub access : p'.tab.access_token ≡ p.tab.access_token
  pub stored : p'.tab.stored_access ≡ p.tab.stored_access
  pub refresh : p'.tab.stored_refresh ≡ p.tab.stored_refresh

asked-IsUnchanged : (body : ℕ) (p : Provider) → IsUnchanged p (set_loading false (asked body p))
asked-IsUnchanged body p = record {
  authenticated = refl;
  email = refl;
  pages = refl;
  access = refl;
  stored = refl;
  refresh = refl;
}

with_data-thrown :
    (server : Server) (email body : ℕ) (fields : Option Tokens) (p : Provider)
    → (with_data server email fields (asked body p)).0 ≡ false
    → IsUnchanged p (stop_loading server (with_data server email fields (asked body p))).1
with_data-thrown server email body none p h = asked-IsUnchanged body p
with_data-thrown server email body (some t) p h = absurd (cc)

with_fields-thrown :
    (server : Server) (email body : ℕ) (json : Option Json) (p : Provider)
    → (with_fields server email json (asked body p)).0 ≡ false
    → IsUnchanged p (stop_loading server (with_fields server email json (asked body p))).1
with_fields-thrown server email body none p h = asked-IsUnchanged body p
with_fields-thrown server email body (some json) p h =
    with_data-thrown server email body json.fields p h

logged_in-thrown :
    (server : Server) (email body : ℕ) (answer : Option Response) (p : Provider)
    → (logged_in server email (answer, asked body p)).0 ≡ false
    → IsUnchanged p (stop_loading server (logged_in server email (answer, asked body p))).1
logged_in-thrown server email body none p h = asked-IsUnchanged body p
logged_in-thrown server email body (some response) p h = elim (Bool-cases (is_ok response)) [
  | inl good ↦ rw good (with_fields-thrown server email body response.json p (rw good at h))
  | inr bad ↦ rw bad (asked-IsUnchanged body p)
]

-- A login that throws, because the request fails, is refused or is answered without tokens, leaves
-- the tokens, the shown user and the page as they were.
pub login-thrown :
    (server : Server) (email body : ℕ) (p : Provider)
    → (login server email body p).0 ≡ false
    → IsUnchanged p (login server email body p).1
login-thrown server email body p h = rw (login-asked server email body p) (
    logged_in-thrown server email body (server (p.tab.sent ++ login_call body p.tab ∷ [])) p
      (rw (login-asked server email body p) at h))

-- The provider after a login that this server grants.
pub record IsSignedIn (email : ℕ) (t : AuthTokens) (p p' : Provider) : Type 0 where
  pub authenticated : p'.is_authenticated ≡ true
  pub shown : p'.user_email ≡ some email
  pub access : p'.tab.stored_access ≡ non_empty (some t.access_token)
  pub refresh : p'.tab.stored_refresh ≡ non_empty (some t.refresh_token)
  pub page : p'.pushed ≡ p.pushed ++ dashboard_page ∷ []

-- When the request of a login gets the reply with which this server hands out tokens, the login
-- returns, the tokens are stored in the tab, the user is shown as authenticated and the dashboard
-- opens.
pub login-IsSignedIn :
    (ext : External) (config : Config) (is_prod : Bool) (unknown_agent : ℕ) (server : Server)
    (email body : ℕ) (t : AuthTokens) (p : Provider)
    → server (p.tab.sent ++ login_call body p.tab ∷ [])
      ≡ some (response_of (signed_in_reply ext config is_prod unknown_agent t))
    → ((login server email body p).0 ≡ true) × IsSignedIn email t p (login server email body p).1
login-IsSignedIn ext config is_prod unknown_agent server email body t p answer =
    rw (login-asked server email body p, answer)
      (
        refl,
        record { authenticated = refl; shown = refl; access = refl; refresh = refl; page = refl },
      )

-- A tab that holds a refresh token asks this server for new tokens when it loads: when the reply is
-- a success with a body, the user is shown as authenticated, and the tab has no token.
pub init_auth-IsTokenless :
    (server : Server) (token : ℕ) (reply : Reply) (tab : Tab)
    → tab.stored_refresh ≡ some token
    → token ≢ 0
    → refresh_answer server token tab ≡ some (response_of reply)
    → is_ok (response_of reply) ≡ true
    → is_some (read_body reply.body) ≡ true
    → ((init_auth server true (mount tab)).is_authenticated ≡ true)
      × IsTokenless (init_auth server true (mount tab)).tab
unfolding init_auth
init_auth-IsTokenless server token reply tab held filled answer good body =
    let (gone, granted) = refresh_auth_token-reply server token reply tab held filled answer in
    shown (refresh_auth_token server tab) (granted ∙ rw (good, body) refl) gone
  where
    shown :
        (r : Bool × Tab)
        → r.0 ≡ true
        → IsTokenless r.1
        → ((initialised server true r (mount tab)).is_authenticated ≡ true)
          × IsTokenless (initialised server true r (mount tab)).tab
    shown (true, t) h gone = (refl, gone)
    shown (false, t) h gone = absurd (cc)
