-- ===== src/Samples.antt =====
-- Concrete data for the tests.
use video_calling.External.{External}
use video_calling.Auth.{Config, Draws}
use video_calling.Base.{ℕ, ◌+◌, ◌*◌, ◌==◌, true, false, none, [], ◌∷◌}
use video_calling.Database.{Database, User, Session, RefreshToken}
use video_calling.Sessions.{Drawn, seven_days}

abbrev pub empty : Database
empty = record {
  users = [];
  sessions = [];
  refresh_tokens = [];
  csrf_tokens = [];
  call_sessions = [];
  call_participants = [];
  contacts = [];
  save_requests = [];
  audit_logs = [];
  inet_accepts = λ _. true;
}

-- A stand-in for SHA-256.
abbrev pub plus_1000 : ℕ → ℕ
plus_1000 n = n + 1000

abbrev pub ada : User
ada = record {
  id = 1;
  email = 100;
  password_hash = 42;
  mfa_enabled = false;
  failed_attempts = 0;
  locked_until = none;
  is_active = true;
}

abbrev pub bob : User
bob = record ada { id = 2; email = 200; password_hash = 43 }

abbrev pub ada_session : Session
ada_session = record {
  id = 7;
  user_id = 1;
  ip_address = [];
  user_agent = 0;
  is_revoked = false;
  created_at = 0;
  expires_at = seven_days;
}

-- The token whose raw form is 1.
abbrev pub ada_token : RefreshToken
ada_token = record {
  id = 5;
  session_id = 7;
  token_hash = 1001;
  family_id = 3;
  is_used = false;
  expires_at = seven_days;
}

abbrev pub signed_in : Database
signed_in = record empty {
  users = ada ∷ bob ∷ [];
  sessions = ada_session ∷ [];
  refresh_tokens = ada_token ∷ [];
}

abbrev pub draw : (token_id raw : ℕ) → Drawn
draw token_id raw = record { token_id = token_id; raw = raw }

-- A password verifies if it is the stored hash.
abbrev pub ext : External
ext = record {
  sha256 = plus_1000;
  argon2_hash = λ password salt. password;
  argon2_verify = λ hash password. hash == password;
  zxcvbn_score = λ password email. 3;
  zxcvbn_suggestion = λ password email. none;
  jwt_sign = λ sub sid. sub * 100 + sid;
}

-- '15m'
abbrev pub config : Config
config = record { dummy_hash = 9; jwt_access_expiry = b'1' ∷ b'5' ∷ b'm' ∷ [] }

abbrev pub draws : Draws
draws = record { session_id = 70; token = draw 50 20; family_id = 30; raw_csrf = 40 }
