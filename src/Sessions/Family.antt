-- ===== src/Sessions/Family.antt =====
-- The invariant of the token families over any history of issuing, rotating and revoking.
use video_calling.Base.{
  ℕ, ◌≤◌, ◌≡◌, Bool, true, false, some, List, [], ◌∷◌, inl, inr, arith, ◌==◌, ◌&&◌, not, find_row,
  update_where, count_where, count-append, count-update-le, count-update-lt,
}
use video_calling.Database.{Database, RefreshToken, Text, modify, >>=-after}
use video_calling.Sessions.{
  with_hash, token_with_id, in_family, used, Drawn, new_token, insert_token, replace_token,
  revoke_family, rotate, issue_token_set, upsert_csrf, rotate_refresh_token, create_session,
  revoke_session, revoke_all_user_sessions, with_new_csrf,
}
use video_calling.Sessions.Rotation.{replaced, replace_token-cases, rotate_cases}

-- A token of the family that can still be rotated.
abbrev pub is_unused_of : ℕ → RefreshToken → Bool
is_unused_of family_id t = t.family_id == family_id && not t.is_used

-- Of every family at most one token is unused.
abbrev pub HasOneLive : Database → Type 0
HasOneLive d = (family_id : ℕ) → count_where (is_unused_of family_id) d.refresh_tokens ≤ 1

-- No token belongs to the family yet.
abbrev pub IsNewFamily : ℕ → Database → Type 0
IsNewFamily family_id d = count_where (in_family family_id) d.refresh_tokens ≡ 0

unused-le-family :
    (family_id : ℕ) (rows : List RefreshToken)
    → count_where (is_unused_of family_id) rows ≤ count_where (in_family family_id) rows
unused-le-family family_id [] = omega arith
unused-le-family family_id (t ∷ rows) = ground (arith, unused-le-family family_id rows)

module _ (hash : ℕ → ℕ) where
  replaced-count :
      (drawn : Drawn) (now : ℕ) (t : RefreshToken) (rows : List RefreshToken)
      (token_hash family_id : ℕ)
      → find_row (with_hash token_hash) rows ≡ some t
      → t.is_used ≡ false
      → count_where (is_unused_of family_id) rows ≤ 1
      → count_where (is_unused_of family_id) (replaced hash drawn now t rows) ≤ 1
  replaced-count drawn now t rows token_hash family_id e fresh le = ground (
    arith,
    count-append (is_unused_of family_id) (update_where (token_with_id t.id) used rows)
        (new_token drawn.token_id t.session_id (hash drawn.raw) t.family_id now ∷ []),
    count-update-le (is_unused_of family_id) (token_with_id t.id) used rows (λ x h. ground arith),
    (λ (c : is_unused_of family_id t ≡ true).
        count-update-lt (is_unused_of family_id) (with_hash token_hash) (token_with_id t.id) used
          rows (λ x h. ground arith) e c (ground arith) (ground arith)),
  )

  replace_token-HasOneLive :
      (drawn : Drawn) (now token_hash : ℕ) (t : RefreshToken) (d : Database)
      → find_row (with_hash token_hash) d.refresh_tokens ≡ some t
      → t.is_used ≡ false
      → HasOneLive d
      → HasOneLive (replace_token hash drawn now t d).1
  replace_token-HasOneLive drawn now token_hash t d e fresh h family_id =
      elim (replace_token-cases hash drawn now t d) [
        | inl failed ↦ rw failed (h family_id)
        | inr (_, done) ↦
            rw done (
              replaced-count drawn now t d.refresh_tokens token_hash family_id e fresh
                (h family_id))
      ]

  revoke_family-HasOneLive :
      (t : RefreshToken) (d : Database) → HasOneLive d → HasOneLive (revoke_family t d)
  unfolding revoke_family
  revoke_family-HasOneLive t d h family_id = ground (
    arith,
    h family_id,
    count-update-le (is_unused_of family_id) (in_family t.family_id) used d.refresh_tokens
        (λ x g. ground arith),
  )

  rotate-HasOneLive :
      (drawn : Drawn) (now raw : ℕ) (d : Database)
      → HasOneLive d
      → HasOneLive (rotate hash drawn now raw d).1
  rotate-HasOneLive drawn now raw d h =
      rotate_cases hash HasOneLive drawn now raw d h (λ t e. revoke_family-HasOneLive t d h)
        (λ t e fresh. replace_token-HasOneLive drawn now (hash raw) t d e fresh h)

  rotate_refresh_token-HasOneLive :
      (drawn : Drawn) (raw_csrf now raw : ℕ) (d : Database)
      → HasOneLive d
      → HasOneLive (rotate_refresh_token hash drawn raw_csrf now raw d).1
  unfolding rotate_refresh_token upsert_csrf
  rotate_refresh_token-HasOneLive drawn raw_csrf now raw d h =
      >>=-after HasOneLive (with_new_csrf hash raw_csrf now) (rotate hash drawn now raw) d
        (rotate-HasOneLive drawn now raw d h) (λ r d' k. k)

  insert_token-HasOneLive :
      (drawn : Drawn) (family_id session_id now : ℕ) (d : Database)
      → IsNewFamily family_id d
      → HasOneLive d
      → HasOneLive
          (insert_token (new_token drawn.token_id session_id (hash drawn.raw) family_id now) d).1
  unfolding insert_token
  insert_token-HasOneLive drawn family_id session_id now d new h f = ground (
    arith,
    h f,
    unused-le-family f d.refresh_tokens,
    count-append (is_unused_of f) d.refresh_tokens
        (new_token drawn.token_id session_id (hash drawn.raw) family_id now ∷ []),
  )

  issue_token_set-HasOneLive :
      (drawn : Drawn) (family_id raw_csrf session_id now : ℕ) (d : Database)
      → IsNewFamily family_id d
      → HasOneLive d
      → HasOneLive (issue_token_set hash drawn family_id raw_csrf session_id now d).1
  unfolding issue_token_set upsert_csrf
  issue_token_set-HasOneLive drawn family_id raw_csrf session_id now d new h =
      >>=-after HasOneLive (λ _. modify (upsert_csrf hash raw_csrf session_id now))
        (insert_token (new_token drawn.token_id session_id (hash drawn.raw) family_id now)) d
        (insert_token-HasOneLive drawn family_id session_id now d new h) (λ r d' k. k)

  -- What the services do to sessions and tokens, in any order.
  pub data Step : Database → Database → Type 0 where
    signs_in :
        (id user_id : ℕ) (ip_address : Text) (user_agent now : ℕ) (d : Database)
        → Step d (create_session id user_id ip_address user_agent now d)
    issues :
        (drawn : Drawn) (family_id raw_csrf session_id now : ℕ) (d : Database)
        → IsNewFamily family_id d
        → Step d (issue_token_set hash drawn family_id raw_csrf session_id now d).1
    refreshes :
        (drawn : Drawn) (raw_csrf now raw : ℕ) (d : Database)
        → Step d (rotate_refresh_token hash drawn raw_csrf now raw d).1
    revokes : (session_id : ℕ) (d : Database) → Step d (revoke_session session_id d)
    revokes_all : (user_id : ℕ) (d : Database) → Step d (revoke_all_user_sessions user_id d)

  pub data Reach (d : Database) : Database → Type 0 where
    here : Reach d d
    next : {e f : Database} → Reach d e → Step e f → Reach d f

  Step-HasOneLive : {d e : Database} → Step d e → HasOneLive d → HasOneLive e
  unfolding create_session revoke_session revoke_all_user_sessions
  Step-HasOneLive (signs_in id user_id ip_address user_agent now d) h = h
  Step-HasOneLive (issues drawn family_id raw_csrf session_id now d new) h =
      issue_token_set-HasOneLive drawn family_id raw_csrf session_id now d new h
  Step-HasOneLive (refreshes drawn raw_csrf now raw d) h =
      rotate_refresh_token-HasOneLive drawn raw_csrf now raw d h
  Step-HasOneLive (revokes session_id d) h = h
  Step-HasOneLive (revokes_all user_id d) h = h

  -- From a database where every family has at most one unused token, every history of sign-ins,
  -- refreshes, reuses and revocations reaches only such databases, if each family id is new.
  pub Reach-HasOneLive : {d e : Database} → HasOneLive d → Reach d e → HasOneLive e
  Reach-HasOneLive h here = h
  Reach-HasOneLive h (next r s) = Step-HasOneLive s (Reach-HasOneLive h r)
