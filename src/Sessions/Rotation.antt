-- ===== src/Sessions/Rotation.antt =====
-- Refresh-token rotation (src/sessions/repositories/refresh-token.repository.ts): the happy path,
-- reuse, and what a failed rotation leaves behind.
use video_calling.Base.{
  ℕ, ◌≤◌, ◌≡◌, ◌⊎◌, inl, inr, refl, true, false, none, some, List, [], ◌∷◌, ◌++◌, ◌∙◌, ◌≢◌, arith,
  ltb, find_row, update_where, All, All-updated, find_row-update, find_row-append,
  find_row-append_some, Option-cases, All-find, Bool-cases,
}
use video_calling.Database.{
  Database, RefreshToken, Session, Error, unauthorized, invalid_refresh_token, unique_violation, ok,
  err,
}
use video_calling.Sessions.{
  with_hash, token_with_id, in_family, used, revoked, session_with_id, is_live, Drawn, Rotated,
  new_token, insert_token, replace_token, revoke_family, rotate_row, rotate, find_active_session,
}

module _ (hash : ℕ → ℕ) where
  -- What a successful rotation has done.
  pub record HasRotated (drawn : Drawn) (now raw : ℕ) (d : Database) (r : Rotated) (d' : Database)
      : Type 0 where
    pub token : RefreshToken
    pub presented : find_row (with_hash (hash raw)) d.refresh_tokens ≡ some token
    pub unexpired : now ≤ token.expires_at
    pub unused : token.is_used ≡ false
    pub returned : r ≡ record { new_raw_token = drawn.raw; session_id = token.session_id }
    pub spent : find_row (with_hash (hash raw)) d'.refresh_tokens ≡ some (used token)
    pub renewed :
        find_row (with_hash (hash drawn.raw)) d'.refresh_tokens
        ≡ some (new_token drawn.token_id token.session_id (hash drawn.raw) token.family_id now)
    pub sessions_kept : d'.sessions ≡ d.sessions

  -- The rows after the happy path.
  abbrev pub replaced : Drawn → ℕ → RefreshToken → List RefreshToken → List RefreshToken
  replaced drawn now t rows =
      update_where (token_with_id t.id) used rows
      ++ new_token drawn.token_id t.session_id (hash drawn.raw) t.family_id now ∷ []

  -- The happy path commits, or the new digest is taken and everything is rolled back.
  pub replace_token-cases :
      (drawn : Drawn) (now : ℕ) (t : RefreshToken) (d : Database)
      → (replace_token hash drawn now t d ≡ (err unique_violation, d))
        ⊎ ((find_row
                (with_hash (hash drawn.raw))
                (update_where (token_with_id t.id) used d.refresh_tokens)
              ≡ none)
            × (replace_token hash drawn now t d ≡ (
              ok (record { new_raw_token = drawn.raw; session_id = t.session_id }),
              record d { refresh_tokens = replaced drawn now t d.refresh_tokens },
            )))
  unfolding replace_token insert_token
  replace_token-cases drawn now t d =
      elim (Option-cases (
        find_row (with_hash (hash drawn.raw))
          (update_where (token_with_id t.id) used d.refresh_tokens))) [
            | inl free ↦ inr (free, ground arith)
            | inr (old, taken) ↦ inl (ground arith)
          ]

  replaced-spent :
      (drawn : Drawn) (now raw : ℕ) (t : RefreshToken) (rows : List RefreshToken)
      → find_row (with_hash (hash raw)) rows ≡ some t
      → find_row (with_hash (hash raw)) (replaced drawn now t rows) ≡ some (used t)
  replaced-spent drawn now raw t rows e =
      find_row-append_some _ (update_where (token_with_id t.id) used rows) _ (
        find_row-update (with_hash (hash raw)) (token_with_id t.id) used rows (λ y. refl) e
        ∙ ground arith)

  replaced-renewed :
      (drawn : Drawn) (now : ℕ) (t : RefreshToken) (rows : List RefreshToken)
      → find_row (with_hash (hash drawn.raw)) (update_where (token_with_id t.id) used rows) ≡ none
      → find_row (with_hash (hash drawn.raw)) (replaced drawn now t rows)
        ≡ some (new_token drawn.token_id t.session_id (hash drawn.raw) t.family_id now)
  replaced-renewed drawn now t rows free =
      find_row-append _ (update_where (token_with_id t.id) used rows) _ free ∙ ground arith

  replace_token-HasRotated :
      (drawn : Drawn) (now raw : ℕ) (t : RefreshToken) (d : Database) {r : Rotated} {d' : Database}
      → find_row (with_hash (hash raw)) d.refresh_tokens ≡ some t
      → now ≤ t.expires_at
      → t.is_used ≡ false
      → replace_token hash drawn now t d ≡ (ok r, d')
      → HasRotated drawn now raw d r d'
  replace_token-HasRotated drawn now raw t d {r} {d'} e le fresh h =
      elim (replace_token-cases drawn now t d) [
        | inl failed ↦ absurd (cc)
        | inr (free, done) ↦
            let same : d' ≡ record d { refresh_tokens = replaced drawn now t d.refresh_tokens } =
              cc in
            record {
              token = t;
              presented = e;
              unexpired = le;
              unused = fresh;
              returned = cc;
              spent = rw same (replaced-spent drawn now raw t d.refresh_tokens e);
              renewed = rw same (replaced-renewed drawn now t d.refresh_tokens free);
              sessions_kept = rw same refl;
            }
      ]

  -- A rotation that succeeds was given an unexpired, unused token; it marks that token used, adds
  -- one unused token of the same family and session under the new digest, and touches no session.
  pub rotate-HasRotated :
      (drawn : Drawn) (now raw : ℕ) (d d' : Database) (r : Rotated)
      → rotate hash drawn now raw d ≡ (ok r, d')
      → HasRotated drawn now raw d r d'
  unfolding rotate
  rotate-HasRotated drawn now raw d d' r h =
      elim (Option-cases (find_row (with_hash (hash raw)) d.refresh_tokens)) [
        | inl missing ↦ absurd (ground arith)
        | inr (t, e) ↦
            replace_token-HasRotated drawn now raw t d e (ground arith) (ground arith)
              (ground arith)
      ]

  -- A used token that has not expired is refused, and its family and session are revoked.
  rotate_reused :
      (drawn : Drawn) (now raw : ℕ) (t : RefreshToken) (d : Database)
      → find_row (with_hash (hash raw)) d.refresh_tokens ≡ some t
      → t.is_used ≡ true
      → now ≤ t.expires_at
      → rotate hash drawn now raw d ≡ (err (unauthorized invalid_refresh_token), revoke_family t d)
  unfolding rotate
  rotate_reused drawn now raw t d e u le = ground arith

  -- What holds of the three outcomes that a rotation can leave behind holds after every rotation.
  pub rotate_cases {ℓ} :
      (P : Database → Type ℓ) (drawn : Drawn) (now raw : ℕ) (d : Database)
      → P d
      → ((t : RefreshToken)
          → find_row (with_hash (hash raw)) d.refresh_tokens ≡ some t
          → P (revoke_family t d))
      → ((t : RefreshToken)
          → find_row (with_hash (hash raw)) d.refresh_tokens ≡ some t
          → t.is_used ≡ false
          → P (replace_token hash drawn now t d).1)
      → P (rotate hash drawn now raw d).1
  unfolding rotate
  rotate_cases P drawn now raw d same reused replaced =
      elim (Option-cases (find_row (with_hash (hash raw)) d.refresh_tokens)) [
        | inl missing ↦ rw (missing, rotate, rotate_row) same
        | inr (t, found) ↦ elim (Bool-cases (ltb t.expires_at now)) [
          | inl late ↦ rw (found, rotate, rotate_row) (rw late same)
          | inr early ↦ elim (Bool-cases t.is_used) [
            | inl again ↦ rw (found, rotate, rotate_row) (rw (early, again) (reused t found))
            | inr fresh ↦
                rw (found, rotate, rotate_row) (rw (early, fresh) (replaced t found fresh))
          ]
        ]
      ]

  -- A refused rotation writes nothing, but for a used token that has not expired.
  pub rotate_refused :
      (drawn : Drawn) (now raw : ℕ) (d d' : Database) (e : Error)
      → rotate hash drawn now raw d ≡ (err e, d')
      → (d' ≡ d)
        ⊎ ((t : RefreshToken) × (find_row (with_hash (hash raw)) d.refresh_tokens ≡ some t)
            × (t.is_used ≡ true)
            × (now ≤ t.expires_at)
            × (e ≡ unauthorized invalid_refresh_token)
            × (d' ≡ revoke_family t d))
  unfolding rotate
  rotate_refused drawn now raw d d' e h =
      elim (Option-cases (find_row (with_hash (hash raw)) d.refresh_tokens)) [
        | inl missing ↦ inl (ground arith)
        | inr (t, found) ↦ elim (Bool-cases (ltb t.expires_at now)) [
          | inl late ↦ inl (ground arith)
          | inr early ↦ elim (Bool-cases t.is_used) [
            | inl reused ↦ inr (
              t,
              found,
              reused,
              ground arith,
              ground (arith, rotate_reused drawn now raw t d),
              ground (arith, rotate_reused drawn now raw t d),
            )
            | inr fresh ↦ inl (ground (arith, replace_token-cases drawn now t d))
          ]
        ]
      ]

-- Every token of a family is used up, and the session is dead at every instant.
pub record IsDead (family_id session_id : ℕ) (d : Database) : Type 0 where
  pub spent : All (λ t. t.family_id ≡ family_id → t.is_used ≡ true) d.refresh_tokens
  pub session_dead : (now : ℕ) → find_active_session session_id now d ≡ none

find_live-revoked :
    (session_id now : ℕ) (rows : List Session)
    → find_row (is_live session_id now) (update_where (session_with_id session_id) revoked rows)
      ≡ none
find_live-revoked session_id now [] = refl
find_live-revoked session_id now (s ∷ rows) = ground (arith, find_live-revoked session_id now rows)

revoke_family-IsDead :
    (t : RefreshToken) (d : Database) → IsDead t.family_id t.session_id (revoke_family t d)
unfolding revoke_family find_active_session
revoke_family-IsDead t d = record {
  spent =
      All-updated _ (in_family t.family_id) used d.refresh_tokens (λ x h e. refl)
        (λ x h e. absurd (ground arith));
  session_dead = λ now. find_live-revoked t.session_id now d.sessions;
}

revoke_family-found :
    (token_hash : ℕ) (u : RefreshToken) (d : Database) (x : RefreshToken)
    → find_row (with_hash token_hash) d.refresh_tokens ≡ some x
    → x.family_id ≡ u.family_id
    → find_row (with_hash token_hash) (revoke_family u d).refresh_tokens ≡ some (used x)
unfolding revoke_family
revoke_family-found token_hash u d x e f =
    find_row-update (with_hash token_hash) (in_family u.family_id) used d.refresh_tokens (λ y. refl)
      e
    ∙ ground arith

-- The row that a search finds in a dead family is used.
IsDead-found :
    {family_id session_id : ℕ} (token_hash : ℕ) (d : Database) (t : RefreshToken)
    → IsDead family_id session_id d
    → find_row (with_hash token_hash) d.refresh_tokens ≡ some t
    → t.family_id ≡ family_id
    → t.is_used ≡ true
IsDead-found token_hash d t dead e f =
    All-find _ (with_hash token_hash) d.refresh_tokens dead.spent e f

module _ (hash : ℕ → ℕ) where
  -- No token of a dead family can be rotated.
  pub IsDead-rotate :
      {family_id session_id : ℕ} (drawn : Drawn) (now raw : ℕ) (d d' : Database) (r : Rotated)
      (t : RefreshToken)
      → IsDead family_id session_id d
      → find_row (with_hash (hash raw)) d.refresh_tokens ≡ some t
      → t.family_id ≡ family_id
      → rotate hash drawn now raw d ≢ (ok r, d')
  IsDead-rotate drawn now raw d d' r t dead e f h =
      let done = rotate-HasRotated hash drawn now raw d d' r h in
      let live = IsDead-found (hash raw) d t dead e f in
      ground (arith, done.presented, done.unused, live, e)

  -- A token that has been rotated is presented again before it expires: the call is refused, the
  -- session is dead at every instant, and the token that the first call handed out is refused too.
  pub rotate_replayed :
      (first second third : Drawn) (now later last raw : ℕ) (d d' d'' : Database) (r r' : Rotated)
      (t : RefreshToken)
      → rotate hash first now raw d ≡ (ok r, d')
      → find_row (with_hash (hash raw)) d.refresh_tokens ≡ some t
      → later ≤ t.expires_at
      → let (answer, after) = rotate hash second later raw d' in
        (answer ≡ err (unauthorized invalid_refresh_token))
        × IsDead t.family_id t.session_id after
        × (rotate hash third last first.raw after ≢ (ok r', d''))
  rotate_replayed first second third now later last raw d d' d'' r r' t h e le =
      let done = rotate-HasRotated hash first now raw d d' r h in
      let same : done.token ≡ t = ground (arith, done.presented) in
      let fresh : RefreshToken =
        new_token first.token_id t.session_id (hash first.raw) t.family_id now in
      let renewed : find_row (with_hash (hash first.raw)) d'.refresh_tokens ≡ some fresh =
        rw (← same) done.renewed in
      let dead = revoke_family-IsDead (used t) d' in
      rw (rotate_reused hash second later raw (used t) d' (rw (← same) done.spent) refl le) (
        refl,
        dead,
        IsDead-rotate third last first.raw (revoke_family (used t) d') d'' r' (used fresh) dead
            (revoke_family-found (hash first.raw) (used t) d' fresh renewed refl) refl,
      )
