-- ===== src/Contacts.antt =====
-- src/contacts/contacts.service.ts. The ids that the server draws and NOW() are arguments; the
-- columns of a request are checked by the foreign keys to `call_sessions` and `users`.
pub mod Handshake
pub mod Listing
mod Tests
use video_calling.Base.{
  ℕ, Bool, true, false, ◌&&◌, Option, none, some, List, [], ◌∷◌, ◌++◌, if◌then◌else◌, ◌==◌, is_some,
  find_row, update_where, delete_where, select_where, order_desc,
}
use video_calling.Database.{
  Text, Database, User, Contact, RequestStatus, pending, accepted, SaveRequest,
  contact_save_requested, contact_saved, contact_save_rejected, save_asked, save_done, request_only,
  Result, ok, err, Action, Error, conflict, fk_violation, user_exists, unique_violation,
}
use video_calling.Audit.{AuditEntry, log}

abbrev pub is_pending : RequestStatus → Bool
is_pending pending = true
is_pending _ = false

-- The UNIQUE key of `contact_save_requests`.
abbrev pub same_request : (call_id from_user to_user : ℕ) → SaveRequest → Bool
same_request call_id from_user to_user r =
    r.call_session_id == call_id && (r.from_user_id == from_user && r.to_user_id == to_user)

abbrev pub find_request : (call_id from_user to_user : ℕ) → Database → Option SaveRequest
find_request call_id from_user to_user d =
    find_row (same_request call_id from_user to_user) d.save_requests

abbrev keys_hold : (call_id from_user to_user : ℕ) → Database → Bool
keys_hold call_id from_user to_user d =
    is_some (find_row (λ c. c.id == call_id) d.call_sessions)
    && (user_exists from_user d && user_exists to_user d)

-- The conflict clause looks for the row before the foreign keys are checked.
unfoldable pub request_contact_save :
    (id now call_id from_user to_user : ℕ) (ip_address : Text) → Action Database SaveRequest
request_contact_save id now call_id from_user to_user ip_address d =
    elim (find_request call_id from_user to_user d) [
      | some existing ↦ (ok existing, d)
      | none ↦
          if keys_hold call_id from_user to_user d
          then (ok row, log now event (record d { save_requests = d.save_requests ++ row ∷ [] }))
          else (err fk_violation, d)
    ]
  where
    row : SaveRequest
    row = record {
      id = id;
      call_session_id = call_id;
      from_user_id = from_user;
      to_user_id = to_user;
      status = pending;
      created_at = now;
      resolved_at = none;
    }

    event : AuditEntry
    event = record {
      user_id = some from_user;
      anonymous_id = none;
      event_type = contact_save_requested;
      payload = some (save_asked call_id to_user);
      ip_address = some ip_address;
      user_agent = none;
    }

-- `id = $1 AND to_user_id = $2 AND status = 'pending'`
abbrev pub awaits : (request_id user_id : ℕ) → SaveRequest → Bool
awaits request_id user_id r = r.id == request_id && (r.to_user_id == user_id && is_pending r.status)

abbrev pub resolved : (now : ℕ) → RequestStatus → SaveRequest → SaveRequest
resolved now status r = record r { status = status; resolved_at = some now }

abbrev pub owns : (owner contact : ℕ) → Contact → Bool
owns owner contact c = c.owner_id == owner && c.contact_user_id == contact

-- One row of the INSERT, with ON CONFLICT (owner_id, contact_user_id) DO NOTHING.
unfoldable pub save_contact : (id now owner contact : ℕ) → List Contact → List Contact
save_contact id now owner contact cs =
    if is_some (find_row (owns owner contact) cs)
    then cs
    else cs
      ++ record {
        id = id;
        owner_id = owner;
        contact_user_id = contact;
        nickname = none;
        saved_at = now;
      }
        ∷ []

-- The foreign keys of `contacts` hold for the users of a stored request.
unfoldable accept_found :
    (first second now request_id acceptor_id : ℕ) (ip_address : Text)
    → Option SaveRequest
    → Database
    → Bool × Database
unfolding save_contact
accept_found first second now request_id acceptor_id ip_address none d = (false, d)
accept_found first second now request_id acceptor_id ip_address (some r) d = (
  true,
  log now event (record d {
    save_requests =
        update_where (awaits request_id acceptor_id) (resolved now accepted) d.save_requests;
    contacts =
        save_contact second now r.to_user_id r.from_user_id
          (save_contact first now r.from_user_id r.to_user_id d.contacts);
  }),
)
  where
    event : AuditEntry
    event = record {
      user_id = some acceptor_id;
      anonymous_id = none;
      event_type = contact_saved;
      payload = some (save_done r.from_user_id r.to_user_id request_id);
      ip_address = some ip_address;
      user_agent = none;
    }

-- The result is `saved`.
unfoldable pub accept_contact_save :
    (first second now request_id acceptor_id : ℕ) (ip_address : Text) → Database → Bool × Database
unfolding accept_found
accept_contact_save first second now request_id acceptor_id ip_address d =
    accept_found first second now request_id acceptor_id ip_address
      (find_row (awaits request_id acceptor_id) d.save_requests) d

unfoldable pub reject_contact_save : (now request_id user_id : ℕ) → Database → Database
reject_contact_save now request_id user_id d = log now event (record d {
  save_requests =
      update_where (awaits request_id user_id) (resolved now RequestStatus.rejected)
        d.save_requests;
})
  where
    event : AuditEntry
    event = record {
      user_id = some user_id;
      anonymous_id = none;
      event_type = contact_save_rejected;
      payload = some (request_only request_id);
      ip_address = none;
      user_agent = none;
    }

-- A row of `listContacts`: a contact with the e-mail address of its user.
pub record ListedContact : Type 0 where
  pub contact : Contact
  pub contact_email : ℕ

abbrev pub listed : Contact → Option User → List ListedContact → List ListedContact
listed c none rest = rest
listed c (some u) rest = record { contact = c; contact_email = u.email } ∷ rest

-- JOIN users u ON u.id = c.contact_user_id
abbrev pub with_emails : List User → List Contact → List ListedContact
with_emails users [] = []
with_emails users (c ∷ cs) =
    listed c (find_row (λ u. u.id == c.contact_user_id) users) (with_emails users cs)

unfoldable pub list_contacts : (user_id : ℕ) → Database → List ListedContact
list_contacts user_id d =
    with_emails d.users
      (order_desc (λ c. c.saved_at) (select_where (λ c. c.owner_id == user_id) d.contacts))

abbrev pub own_contact : (owner_id contact_id : ℕ) → Contact → Bool
own_contact owner_id contact_id c = c.id == contact_id && c.owner_id == owner_id

unfoldable pub update_nickname : (owner_id contact_id nickname : ℕ) → Database → Database
update_nickname owner_id contact_id nickname d = record d {
  contacts =
      update_where (own_contact owner_id contact_id) (λ c. record c { nickname = some nickname })
        d.contacts;
}

unfoldable pub remove_contact : (owner_id contact_id : ℕ) → Database → Database
remove_contact owner_id contact_id d = record d {
  contacts = delete_where (own_contact owner_id contact_id) d.contacts;
}
