-- ===== src/Web/Tests.antt =====
-- The properties of the routes at concrete inputs.
use video_calling.Base.{ℕ, ◌≡◌, refl, true, none, some, [], ◌∷◌, arith, find_row}
use video_calling.Database.{Database}
use video_calling.Samples.{ext, config, draws, draw, signed_in, ada_session, ada}
use video_calling.Sessions.{
  find_active_session, create_session, issue_token_set, insert_token, upsert_csrf,
  rotate_refresh_token, rotate, with_hash,
}
use video_calling.Users.{find_by_email, reset_failed_attempts}
use video_calling.Auth.{
  JwtPayload, Draws, jwt_can_activate, login, refresh, issue_tokens, access_token_expiry_seconds,
}
use video_calling.Auth.Login.{issued}
use video_calling.Auth.Renewal.{renewed_tokens}
use video_calling.Web.{Reply, no_body, respond}
use video_calling.Web.Address.{one, absent, resolve_client_ip, resolve_client_ip-forwarded}
use video_calling.Web.Accounts.{
  HttpRequest, clear_cookies, raw_refresh_token, post_login, post_refresh,
}
use video_calling.Web.Routes.{
  Protected, history_route, logout_route, login_route, refresh_route, serve_protected, serve_open,
}
use video_calling.Web.Serving.{sign_in_first, serve_protected-refused, serve_protected-logout}
use video_calling.Web.Logins.{signed_in_reply, serve_open-login_refresh}

all : Unit {0}
unfolding login refresh find_by_email issue_tokens issue_token_set insert_token create_session
    upsert_csrf reset_failed_attempts access_token_expiry_seconds rotate_refresh_token rotate
    find_active_session serve_open post_login post_refresh jwt_can_activate respond
all = tt

-- A request without a token.
abbrev anybody : HttpRequest
anybody = record {
  url = 4;
  verified = none;
  forwarded_for = absent;
  remote_address = none;
  user_agent = none;
  refresh_cookie = none;
  body_refresh_token = none;
}

abbrev ada_claims : JwtPayload
ada_claims = record { sub = 1; sid = 7 }

abbrev by_ada : HttpRequest
by_ada = record anybody { verified = some ada_claims }

-- ' 1.2 ' and ' 1.2 , 3' have the address '1.2'.
resolve_client_ip-forwarded_example :
    (resolve_client_ip (one (b' ' ∷ b'1' ∷ b'.' ∷ b'2' ∷ b' ' ∷ [])) none ≡ b'1' ∷ b'.' ∷ b'2' ∷ [])
    × (resolve_client_ip (one (b' ' ∷ b'1' ∷ b'.' ∷ b'2' ∷ b' ' ∷ b',' ∷ b' ' ∷ b'3' ∷ [])) none
        ≡ b'1' ∷ b'.' ∷ b'2' ∷ [])
resolve_client_ip-forwarded_example =
    resolve_client_ip-forwarded (b' ' ∷ []) (b'1' ∷ b'.' ∷ b'2' ∷ []) (b' ' ∷ []) (b' ' ∷ b'3' ∷ [])
      none (refl, (refl, (refl, tt))) refl (refl, tt) (refl, tt) (refl, tt) (refl, tt)

serve_protected-refused_example :
    serve_protected 9 (history_route none none) anybody signed_in ≡ (sign_in_first 9 4, signed_in)
serve_protected-refused_example =
    serve_protected-refused 9 (history_route none none) anybody signed_in (λ p. λ e. absurd (cc))

serve_protected-logout_example :
    ((serve_protected 9 logout_route by_ada signed_in).0
      ≡ record { status = 204; body = no_body; cookies = clear_cookies })
    × ((later : ℕ) (route : Protected) (req' : HttpRequest) (q : JwtPayload)
        → req'.verified ≡ some q
        → q.sid ≡ 7
        → serve_protected later route req' (serve_protected 9 logout_route by_ada signed_in).1
          ≡ (sign_in_first later req'.url, (serve_protected 9 logout_route by_ada signed_in).1))
unfolding find_active_session
serve_protected-logout_example =
    serve_protected-logout 9 by_ada ada_claims signed_in (refl, ada_session, refl)

abbrev again : Draws
again = record { session_id = 71; token = draw 51 21; family_id = 31; raw_csrf = 41 }

abbrev after_login : Reply × Database
after_login = serve_open ext config true 0 9 (login_route draws 100 42) anybody signed_in

serve_open-login_refresh_example :
    (after_login.0 ≡ signed_in_reply ext config true 0 (issued ext config draws 1))
    × ((req' : HttpRequest)
        → raw_refresh_token req' ≡ some 20
        → find_row (with_hash 1021) after_login.1.refresh_tokens ≡ none
        → (serve_open ext config true 0 600 (refresh_route again) req' after_login.1).0
          ≡ signed_in_reply ext config true 0 (renewed_tokens ext config again 1 70))
unfolding find_by_email
serve_open-login_refresh_example =
    serve_open-login_refresh ext config true 0 draws again 9 600 100 42 anybody signed_in ada refl
      refl refl refl refl refl (omega arith) (λ e. omega (arith, e))

-- The answer of the refresh route to a cookie that login set.
renewed_by_cookie :
    (serve_open ext config true 0 600
      (refresh_route again)
      (record anybody { refresh_cookie = some 20 })
      after_login.1).0
    ≡ signed_in_reply ext config true 0 (renewed_tokens ext config again 1 70)
unfolding all
renewed_by_cookie = refl
