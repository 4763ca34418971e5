-- ===== src/Web/Serving.antt =====
-- What the server answers on its routes: who is let in, and what a logout ends.
use video_calling.Base.{ℕ, ◌≡◌, inl, inr, ap, ◌∙◌, arith, false, none, some, []}
use video_calling.Database.{Database, Session, auth_required, unauthorized, err, >>=-ok, >>=-err}
use video_calling.Sessions.{find_active_session}
use video_calling.Sessions.Live.{find_active-revoke}
use video_calling.Auth.{JwtPayload, jwt_can_activate, logout}
use video_calling.Auth.Access.{guard_passes}
use video_calling.Web.{Reply, no_body, failure, respond}
use video_calling.Web.Accounts.{HttpRequest, with_user, clear_cookies, post_logout}
use video_calling.Web.Routes.{
  Protected, logout_route, protected_status, protected_handler, answered_by, behind_guard,
  serve_protected,
}

-- Nobody is signed in with the token of the request.
abbrev pub IsSignedOut : (now : ℕ) → HttpRequest → Database → Type 0
IsSignedOut now req d =
    (p : JwtPayload) → req.verified ≡ some p → find_active_session p.sid now d ≡ none

abbrev pub IsSignedIn : (now : ℕ) → HttpRequest → JwtPayload → Database → Type 0
IsSignedIn now req p d =
    (req.verified ≡ some p) × (s : Session) × (find_active_session p.sid now d ≡ some s)

-- The answer to a request that the guard stops.
abbrev pub sign_in_first : (now url : ℕ) → Reply
sign_in_first now url = record {
  status = 401;
  body =
      failure
        (record { status_code = 401; message = some auth_required; timestamp = now; path = url });
  cookies = [];
}

-- A protected route without an active session answers 401 with the one text, sets no cookie and
-- writes nothing, whatever the route and what it carries.
pub serve_protected-refused :
    (now : ℕ) (route : Protected) (req : HttpRequest) (d : Database)
    → IsSignedOut now req d
    → serve_protected now route req d ≡ (sign_in_first now req.url, d)
unfolding serve_protected respond
serve_protected-refused now route req d out = elim (guard_passes now req.verified d) [
  | inl (p, s, given, live, passed) ↦ absurd (ground (arith, out p given))
  | inr (dead, stopped) ↦
      let refused : behind_guard now false req (with_user (protected_handler now route)) d
          ≡ (err (unauthorized auth_required), d) =
        >>=-err (with_user (protected_handler now route)) (jwt_can_activate now false req.verified)
          d stopped in
      ap (λ r. (respond (protected_status route) now req.url r.0, r.1)) refused
]

-- With an active session the route runs with the token's claims.
pub serve_protected-passed :
    (now : ℕ) (route : Protected) (req : HttpRequest) (p : JwtPayload) (d : Database)
    → IsSignedIn now req p d
    → serve_protected now route req d
      ≡ answered_by (protected_status route) now req.url (protected_handler now route p) d
unfolding serve_protected
serve_protected-passed now route req p d (given, s, live) = elim (guard_passes now req.verified d) [
  | inr (dead, stopped) ↦ absurd (ground (arith, dead p given))
  | inl (q, s', given', live', passed) ↦
      let same : q ≡ p = cc in
      let ran : behind_guard now false req (with_user (protected_handler now route)) d
          ≡ protected_handler now route q d =
        >>=-ok (with_user (protected_handler now route)) (jwt_can_activate now false req.verified) d
          passed in
      ap (λ r. (respond (protected_status route) now req.url r.0, r.1)) ran
      ∙ ap (λ x. answered_by (protected_status route) now req.url (protected_handler now route x) d)
          same
]

-- The logout route with an active session answers 204 and clears both cookies, and from then on
-- every protected route refuses the tokens of that session.
pub serve_protected-logout :
    (now : ℕ) (req : HttpRequest) (p : JwtPayload) (d : Database)
    → IsSignedIn now req p d
    → let (reply, after) = serve_protected now logout_route req d in
      (reply ≡ record { status = 204; body = no_body; cookies = clear_cookies })
      × ((later : ℕ) (route : Protected) (req' : HttpRequest) (q : JwtPayload)
          → req'.verified ≡ some q
          → q.sid ≡ p.sid
          → serve_protected later route req' after ≡ (sign_in_first later req'.url, after))
unfolding post_logout respond logout
serve_protected-logout now req p d signed_in =
    let done = serve_protected-passed now logout_route req p d signed_in in
    (
      ap (λ r. r.0) done,
      λ later. λ route. λ req'. λ q. λ given. λ same.
          serve_protected-refused later route req' _ (λ x. λ e.
            rw done (let x_q : x ≡ q = cc in rw (x_q, same) (find_active-revoke p.sid later d))),
    )
