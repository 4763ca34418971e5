-- ===== src/Sessions/Csrf.antt =====
-- What a CSRF token that was stored last is worth (src/sessions/repositories/csrf-token.repository.ts).
use video_calling.Base.{
  ℕ, ◌+◌, ◌≡◌, ◌≢◌, refl, true, false, List, [], ◌∷◌, ◌++◌, inl, inr, arith, ltb, ◌==◌, ◌&&◌,
  exists_where, update_where, Bool-cases,
}
use video_calling.Database.{Database, CsrfToken}
use video_calling.Sessions.{
  one_day, csrf_of_session, csrf_matches, upsert_row, upsert_csrf, is_valid_csrf,
}

abbrev stored : (token_hash now : ℕ) → CsrfToken → CsrfToken
stored token_hash now t = record t { token_hash = token_hash; expires_at = now + one_day }

-- The answer for the session that was written: its rows all hold the new digest.
matches-update :
    (session_id token_hash now other later : ℕ) (rows : List CsrfToken)
    → exists_where (csrf_of_session session_id) rows ≡ true
    → exists_where
        (csrf_matches session_id other later)
        (update_where (csrf_of_session session_id) (stored token_hash now) rows)
      ≡ token_hash == other && ltb later (now + one_day)
matches-update session_id token_hash now other later [] h = cc
matches-update session_id token_hash now other later (t ∷ rows) h =
    elim (Bool-cases (exists_where (csrf_of_session session_id) rows)) [
      | inl more ↦ ground (arith, matches-update session_id token_hash now other later rows more)
      | inr none_left ↦
          ground (arith, no-match session_id token_hash now other later rows none_left)
    ]
  where
    no-match :
        (session_id token_hash now other later : ℕ) (rows : List CsrfToken)
        → exists_where (csrf_of_session session_id) rows ≡ false
        → exists_where
            (csrf_matches session_id other later)
            (update_where (csrf_of_session session_id) (stored token_hash now) rows)
          ≡ false
    no-match session_id token_hash now other later [] h = refl
    no-match session_id token_hash now other later (t ∷ rows) h =
        ground (arith, no-match session_id token_hash now other later rows)

matches-append :
    (session_id token_hash now other later : ℕ) (rows : List CsrfToken)
    → exists_where (csrf_of_session session_id) rows ≡ false
    → exists_where (csrf_matches session_id other later) (
        rows
        ++ record { session_id = session_id; token_hash = token_hash; expires_at = now + one_day }
          ∷ [])
      ≡ token_hash == other && ltb later (now + one_day)
matches-append session_id token_hash now other later [] h = ground arith
matches-append session_id token_hash now other later (t ∷ rows) h =
    ground (arith, matches-append session_id token_hash now other later rows)

-- The answer for another session is what it was.
matches-upsert_ne :
    (session_id token_hash now asked other later : ℕ) (rows : List CsrfToken)
    → asked ≢ session_id
    → exists_where
        (csrf_matches asked other later)
        (update_where (csrf_of_session session_id) (stored token_hash now) rows)
      ≡ exists_where (csrf_matches asked other later) rows
matches-upsert_ne session_id token_hash now asked other later [] h = refl
matches-upsert_ne session_id token_hash now asked other later (t ∷ rows) h =
    ground (arith, matches-upsert_ne session_id token_hash now asked other later rows h)

matches-append_ne :
    (session_id token_hash now asked other later : ℕ) (rows : List CsrfToken)
    → asked ≢ session_id
    → exists_where (csrf_matches asked other later) (
        rows
        ++ record { session_id = session_id; token_hash = token_hash; expires_at = now + one_day }
          ∷ [])
      ≡ exists_where (csrf_matches asked other later) rows
matches-append_ne session_id token_hash now asked other later [] h = ground arith
matches-append_ne session_id token_hash now asked other later (t ∷ rows) h =
    ground (arith, matches-append_ne session_id token_hash now asked other later rows h)

module _ (hash : ℕ → ℕ) where
  -- After a token is stored for a session, a token is valid for that session exactly when it has
  -- the same digest and less than a day has passed; so the token stored before is invalid.
  pub is_valid-upsert :
      (raw session_id now other later : ℕ) (d : Database)
      → is_valid_csrf hash session_id other later (upsert_csrf hash raw session_id now d)
        ≡ hash raw == hash other && ltb later (now + one_day)
  unfolding is_valid_csrf upsert_csrf
  is_valid-upsert raw session_id now other later d =
      elim (Bool-cases (exists_where (csrf_of_session session_id) d.csrf_tokens)) [
        | inl old ↦
            rw (old, upsert_row)
              (matches-update session_id (hash raw) now (hash other) later d.csrf_tokens old)
        | inr new ↦
            rw (new, upsert_row)
              (matches-append session_id (hash raw) now (hash other) later d.csrf_tokens new)
      ]

  -- Storing a token for one session changes no answer for another.
  pub is_valid-upsert_ne :
      (raw session_id now asked other later : ℕ) (d : Database)
      → asked ≢ session_id
      → is_valid_csrf hash asked other later (upsert_csrf hash raw session_id now d)
        ≡ is_valid_csrf hash asked other later d
  unfolding is_valid_csrf upsert_csrf
  is_valid-upsert_ne raw session_id now asked other later d h =
      elim (Bool-cases (exists_where (csrf_of_session session_id) d.csrf_tokens)) [
        | inl old ↦
            rw (old, upsert_row)
              (matches-upsert_ne session_id (hash raw) now asked (hash other) later d.csrf_tokens h)
        | inr new ↦
            rw (new, upsert_row)
              (matches-append_ne session_id (hash raw) now asked (hash other) later d.csrf_tokens h)
      ]
