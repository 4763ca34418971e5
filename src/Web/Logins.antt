-- ===== src/Web/Logins.antt =====
-- Signing in over the login route and renewing the tokens over the refresh route.
use video_calling.Base.{
  ℕ, ◌+◌, ◌<◌, ◌≡◌, ◌≢◌, ap, arith, Bool, true, false, none, some, find_row, or_else,
}
use video_calling.Database.{Database, User, ok, Action, ◌>>=◌, >>=-ok}
use video_calling.External.{External}
use video_calling.Users.{find_by_email, is_locked}
use video_calling.Sessions.{seven_days, with_hash, session_with_id}
use video_calling.Auth.{AuthTokens, Draws, Config, login, refresh, jwt_can_activate}
use video_calling.Auth.Login.{issued}
use video_calling.Auth.Renewal.{renewed_tokens, login-refresh}
use video_calling.Web.{Reply, envelope, tokens, respond}
use video_calling.Web.Address.{resolve_client_ip}
use video_calling.Web.Accounts.{
  HttpRequest, attach_cookies, login_answer, give_tokens, raw_refresh_token, refresh_with,
  post_login, post_refresh,
}
use video_calling.Web.Routes.{login_route, refresh_route, answered_by, serve_open}

module _ (ext : External) (config : Config) (is_prod : Bool) (unknown_agent : ℕ) where
  -- The response that hands out the tokens, in the body and as cookies.
  abbrev pub signed_in_reply : AuthTokens → Reply
  signed_in_reply t = record {
    status = 200;
    body = envelope true (tokens (login_answer t));
    cookies = attach_cookies is_prod t;
  }

  given :
      (action : Action Database AuthTokens) (t : AuthTokens) (now url : ℕ) (d : Database)
      → (action d).0 ≡ ok t
      → answered_by 200 now url (action >>= give_tokens is_prod) d
        ≡ (signed_in_reply t, (action d).1)
  unfolding respond
  given action t now url d h =
      ap (λ r. (respond 200 now url r.0, r.1))
        (>>=-ok (give_tokens is_prod) action d (ap (λ r. (r, (action d).1)) h))

  refreshed :
      (again : Draws) (later raw : ℕ) (req : HttpRequest) (t : AuthTokens) (d : Database)
      → raw_refresh_token req ≡ some raw
      → raw ≢ 0
      → (refresh ext config again later raw d).0 ≡ ok t
      → (serve_open ext config is_prod unknown_agent later (refresh_route again) req d).0
        ≡ signed_in_reply t
  unfolding serve_open post_refresh jwt_can_activate
  refreshed again later raw req t d shown non_empty done =
      let chosen : refresh_with ext config is_prod unknown_agent again later (some raw)
          ≡ (refresh ext config again later raw >>= give_tokens is_prod) =
        ground arith in
      rw (shown, chosen)
        (ap (λ r. r.0) (given (refresh ext config again later raw) t later req.url d done))

  -- The login route answers an active user who is not locked and gives the right password with 200,
  -- the tokens and both cookies, if the drawn digest and the session's id are new. For seven days,
  -- the refresh route answers a request with that refresh token, as cookie or without a cookie in
  -- the body, with 200 and new tokens of the same session, if the digest drawn then is new.
  pub serve_open-login_refresh :
      (draws again : Draws) (now later email password : ℕ) (req : HttpRequest) (d : Database)
      (u : User)
      → find_by_email email d ≡ some u
      → ext.argon2_verify u.password_hash password ≡ true
      → u.is_active ≡ true
      → is_locked u now ≡ false
      → find_row (with_hash (ext.sha256 draws.token.raw)) d.refresh_tokens ≡ none
      → find_row (session_with_id draws.session_id) d.sessions ≡ none
      → later < now + seven_days
      → draws.token.raw ≢ 0
      → let (reply, after) =
          serve_open ext config is_prod unknown_agent now
            (login_route draws email password)
            req
            d in
        (reply ≡ signed_in_reply (issued ext config draws u.id))
        × ((req' : HttpRequest)
            → raw_refresh_token req' ≡ some draws.token.raw
            → find_row (with_hash (ext.sha256 again.token.raw)) after.refresh_tokens ≡ none
            → (serve_open ext config is_prod unknown_agent later (refresh_route again) req' after).0
              ≡ signed_in_reply (renewed_tokens ext config again u.id draws.session_id))
  unfolding serve_open post_login jwt_can_activate
  serve_open-login_refresh draws again now later email password req d u found right active unlocked
        free new le non_empty =
      let address = resolve_client_ip req.forwarded_for req.remote_address in
      let agent = or_else req.user_agent unknown_agent in
      let (entered, renewed) =
        login-refresh ext config draws again now later email password address agent d u found right
          active unlocked free new le in
      let first =
        given (login ext config draws now email password address agent)
          (issued ext config draws u.id) now req.url d entered in
      (
        ap (λ r. r.0) first,
        λ req'. λ shown. λ unseen.
            let unseen' = rw (ap (λ r. r.1) first) at unseen in
            rw (ap (λ r. r.1) first)
              (refreshed again later draws.token.raw req' _ _ shown non_empty (renewed unseen')),
      )
