-- ===== src/Audit/Append.antt =====
-- The audit log is append-only.
use video_calling.Base.{
  ℕ, ◌≡◌, refl, sym, ◌∙◌, ap, List, [], ◌++◌, arith, Bool-cases, inl, inr, ◌&&◌,
}
use mathlib.Core.List.{append_assoc, append-nil}
use video_calling.Database.{Database, AuditRow, user_exists_or_null}
use video_calling.Audit.{AuditEntry, log, logged_address, address_accepted}

-- Every row that was there stays, in its place; rows may follow.
abbrev pub Extends : Database → Database → Type 0
Extends d e = (rows : List AuditRow) × (e.audit_logs ≡ d.audit_logs ++ rows)

pub Extends-same : (d e : Database) → e.audit_logs ≡ d.audit_logs → Extends d e
Extends-same d e h = ([], h ∙ sym (append-nil d.audit_logs))

pub Extends-trans : (c d e : Database) → Extends c d → Extends d e → Extends c e
Extends-trans c d e (xs, p) (ys, q) =
    (xs ++ ys, q ∙ (ap (λ r. r ++ ys) p ∙ append_assoc c.audit_logs xs ys))

pub log-Extends : (now : ℕ) (e : AuditEntry) (d : Database) → Extends d (log now e d)
unfolding log
log-Extends now e d =
    elim (Bool-cases
      (user_exists_or_null e.user_id d && address_accepted (logged_address e.ip_address) d)) [
        | inl written ↦ rw written (_, refl)
        | inr lost ↦ rw lost (Extends-same d d refl)
      ]

-- What `log` leaves alone, for the proofs of its callers.
pub record KeepsRest (d e : Database) : Type 0 where
  pub users : e.users ≡ d.users
  pub call_sessions : e.call_sessions ≡ d.call_sessions
  pub call_participants : e.call_participants ≡ d.call_participants
  pub contacts : e.contacts ≡ d.contacts
  pub save_requests : e.save_requests ≡ d.save_requests

pub log-KeepsRest : (now : ℕ) (e : AuditEntry) (d : Database) → KeepsRest d (log now e d)
unfolding log
log-KeepsRest now e d = record {
  users = ground arith;
  call_sessions = ground arith;
  call_participants = ground arith;
  contacts = ground arith;
  save_requests = ground arith;
}
