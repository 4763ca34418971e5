-- ===== src/Database/Tables.antt =====
-- The rows of src/database/migrations, with the record types of the repositories and services that
-- read them: src/users/repositories/user.repository.ts, src/sessions/repositories, src/calls,
-- src/contacts/contacts.service.ts and src/audit. Of a table the columns that some code reads or
-- writes are kept; `updated_at` and the token tables' `created_at` are left out.
use video_calling.Base.{ℕ, Bool, List, Option}

-- A text that the code takes apart: its code points.
abbrev pub Text : Type 0
Text = List ℕ

pub record User : Type 0 where
  pub id : ℕ
  pub email : ℕ
  pub password_hash : ℕ
  pub mfa_enabled : Bool
  pub failed_attempts : ℕ
  pub locked_until : Option ℕ
  pub is_active : Bool

pub record Session : Type 0 where
  pub id : ℕ
  pub user_id : ℕ
  pub ip_address : Text
  pub user_agent : ℕ
  pub is_revoked : Bool
  pub created_at : ℕ
  pub expires_at : ℕ

pub record RefreshToken : Type 0 where
  pub id : ℕ
  pub session_id : ℕ
  pub token_hash : ℕ
  pub family_id : ℕ
  pub is_used : Bool
  pub expires_at : ℕ

pub record CsrfToken : Type 0 where
  pub session_id : ℕ
  pub token_hash : ℕ
  pub expires_at : ℕ

pub data CallType : Type 0 where
  voice video group : CallType

pub data Status : Type 0 where
  initiated active ended missed rejected : Status

pub record CallSession : Type 0 where
  pub id : ℕ
  pub initiator_id : Option ℕ
  pub call_type : CallType
  pub status : Status
  pub is_anonymous : Bool
  pub room_id : Option ℕ
  pub started_at : ℕ
  pub answered_at : Option ℕ
  pub ended_at : Option ℕ

pub data Role : Type 0 where
  host guest : Role

pub record Participant : Type 0 where
  pub id : ℕ
  pub call_session_id : ℕ
  pub user_id : Option ℕ
  pub anonymous_id : Option ℕ
  pub role : Role
  pub joined_at : ℕ
  pub left_at : Option ℕ
  pub mic_enabled : Bool
  pub camera_enabled : Bool

pub record Contact : Type 0 where
  pub id : ℕ
  pub owner_id : ℕ
  pub contact_user_id : ℕ
  pub nickname : Option ℕ
  pub saved_at : ℕ

pub data RequestStatus : Type 0 where
  pending accepted rejected expired : RequestStatus

pub record SaveRequest : Type 0 where
  pub id : ℕ
  pub call_session_id : ℕ
  pub from_user_id : ℕ
  pub to_user_id : ℕ
  pub status : RequestStatus
  pub created_at : ℕ
  pub resolved_at : Option ℕ

pub data EventType : Type 0 where
  user_login user_logout user_register : EventType
  call_initiated call_accepted call_rejected call_ended call_missed : EventType
  call_upgraded call_downgraded : EventType
  media_mic_toggled media_camera_toggled : EventType
  room_created participant_joined participant_left : EventType
  match_queued match_found match_cancelled : EventType
  contact_save_requested contact_saved contact_save_rejected : EventType

-- The `payload` objects that the services log, one constructor for each shape.
pub data Payload : Type 0 where
  no_payload : Payload
  call_created : (call_id : ℕ) (call_type : CallType) (is_anonymous : Bool) → Payload
  call_only : (call_id : ℕ) → Payload
  call_retyped : (call_id : ℕ) (new_type : CallType) → Payload
  mic_set camera_set : (call_id : ℕ) (value : Bool) → Payload
  room_only : (room_id : ℕ) → Payload
  socket_typed : (socket_id : ℕ) (preferred : CallType) → Payload
  socket_only : (socket_id : ℕ) → Payload
  users_matched : (user1 user2 : ℕ) → Payload
  save_asked : (call_id to_user : ℕ) → Payload
  save_done : (from_user to_user request_id : ℕ) → Payload
  request_only : (request_id : ℕ) → Payload

pub record AuditRow : Type 0 where
  pub user_id : Option ℕ
  pub anonymous_id : Option ℕ
  pub event_type : EventType
  pub payload : Payload
  pub ip_address : Option Text
  pub user_agent : Option ℕ
  pub occurred_at : ℕ

-- `inet_accepts` is the server's cast of a text to `inet`, which the code calls and does not define.
pub record Database : Type 0 where
  pub users : List User
  pub sessions : List Session
  pub refresh_tokens : List RefreshToken
  pub csrf_tokens : List CsrfToken
  pub call_sessions : List CallSession
  pub call_participants : List Participant
  pub contacts : List Contact
  pub save_requests : List SaveRequest
  pub audit_logs : List AuditRow
  pub inet_accepts : Text → Bool
