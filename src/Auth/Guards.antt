-- ===== src/Auth/Guards.antt =====
-- `CsrfGuard.canActivate` against what double submission promises.
use video_calling.Base.{ℕ, ◌≡◌, ◌≢◌, ◌↔◌, refl, true, false, Option, none, some, arith}
use video_calling.Database.{Database, ok}
use video_calling.Sessions.{is_valid_csrf}
use video_calling.Auth.{
  JwtPayload, HttpMethod, is_unsafe, Header, absent, repeated, single, csrf_can_activate,
}

-- On a route that is not public a request with a mutating method passes exactly if it carries one
-- non-empty CSRF header, the caller has a session, and the token is valid for that session now.
pub csrf_passes_iff :
    (hash : ℕ → ℕ) (now : ℕ) (method : HttpMethod) (header : Header) (user : Option JwtPayload)
    (d : Database)
    → is_unsafe method ≡ true
    → (csrf_can_activate hash now false method header user d ≡ ok true) ↔ (
        (p : JwtPayload) × (raw : ℕ) × (user ≡ some p)
        × (header ≡ single raw)
        × (raw ≢ 0)
        × (p.sid ≢ 0)
        × (is_valid_csrf hash p.sid raw now d ≡ true))
unfolding csrf_can_activate
csrf_passes_iff hash now method absent user d m =
    (λ h. absurd (ground arith), λ x. absurd (ground arith))
csrf_passes_iff hash now method repeated user d m =
    (λ h. absurd (ground arith), λ x. absurd (ground arith))
csrf_passes_iff hash now method (single raw) none d m =
    (λ h. absurd (ground arith), λ x. absurd (ground arith))
csrf_passes_iff hash now method (single raw) (some p) d m =
    (λ h. (p, raw, refl, refl, ground arith, ground arith, ground arith), λ x. ground arith)
