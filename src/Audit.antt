-- ===== src/Audit.antt =====
-- src/audit: audit.service.ts and audit-event.enum.ts (whose events are `EventType` in Database).
pub mod Append
use video_calling.Base.{
  ℕ, ◌+◌, Bool, true, false, Option, none, some, [], ◌∷◌, ◌++◌, ltb, ◌==◌, ◌&&◌, ◌||◌,
  if◌then◌else◌, or_else,
}
use video_calling.Database.{
  Text, Database, EventType, Payload, no_payload, AuditRow, user_exists_or_null,
}

-- isValidIp

abbrev pub is_decimal : ℕ → Bool
is_decimal c = if ltb c b'0' then false else ltb c (b'9' + 1)

-- /^(?:\d{1,3}\.){3}\d{1,3}$/: `dots` and `digits` count what was read, `digits` since the last dot.
unfoldable pub ipv4_from : (dots digits : ℕ) → Text → Bool
ipv4_from dots digits [] = dots == 3 && ltb 0 digits
ipv4_from dots digits (c ∷ rest) =
    let more =
      ipv4_from (if is_decimal c then dots else dots + 1) (if is_decimal c then digits + 1 else 0)
        rest in
    if is_decimal c
    then (if ltb digits 3 then more else false)
    else if c == b'.' && (ltb 0 digits && ltb dots 3)
    then more
    else false

abbrev pub is_hex_or_colon : ℕ → Bool
is_hex_or_colon c =
    is_decimal c
    || (if ltb c b'a' then false else ltb c (b'f' + 1))
    || (if ltb c b'A' then false else ltb c (b'F' + 1))
    || c == b':'

all_hex_or_colon : Text → Bool
all_hex_or_colon [] = true
all_hex_or_colon (c ∷ rest) = if is_hex_or_colon c then all_hex_or_colon rest else false

-- /^[0-9a-fA-F:]+$/
is_hex_text : Text → Bool
unfolding all_hex_or_colon
is_hex_text [] = false
is_hex_text (c ∷ rest) = all_hex_or_colon (c ∷ rest)

unfoldable pub is_valid_ip : Text → Bool
unfolding ipv4_from is_hex_text
is_valid_ip ip = ipv4_from 0 0 ip || is_hex_text ip

-- `AuditEntry`
pub record AuditEntry : Type 0 where
  pub user_id : Option ℕ
  pub anonymous_id : Option ℕ
  pub event_type : EventType
  pub payload : Option Payload
  pub ip_address : Option Text
  pub user_agent : Option ℕ

abbrev pub logged_address : Option Text → Option Text
logged_address none = none
logged_address (some ip) = if is_valid_ip ip then some ip else none

-- The cast `$5::inet`.
abbrev pub address_accepted : Option Text → Database → Bool
address_accepted none d = true
address_accepted (some ip) d = d.inet_accepts ip

-- The INSERT fails, and the failure is swallowed, if the user is unknown or the cast is refused.
unfoldable pub log : (now : ℕ) → AuditEntry → Database → Database
log now e d =
    if user_exists_or_null e.user_id d && address_accepted (logged_address e.ip_address) d
    then record d {
      audit_logs =
          d.audit_logs
          ++ record {
            user_id = e.user_id;
            anonymous_id = e.anonymous_id;
            event_type = e.event_type;
            payload = or_else e.payload no_payload;
            ip_address = logged_address e.ip_address;
            user_agent = e.user_agent;
            occurred_at = now;
          }
            ∷ [];
    }
    else d
