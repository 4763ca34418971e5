-- ===== src/Web/Routes.antt =====
-- src/calls/calls.controller.ts and src/contacts/contacts.controller.ts, and every route of the
-- server behind the guard that its controller puts before it. `req.ip` is the peer's address as
-- Express resolves it.
use video_calling.Base.{ℕ, Bool, true, false, Option, none, some, [], or_else}
use video_calling.Database.{Database, Text, Action, pure, gets, modify, ◌>>=◌, ◌>>◌, Result}
use video_calling.External.{External}
use video_calling.Auth.{Draws, Config, JwtPayload, jwt_can_activate}
use video_calling.Calls.{get_call_by_id, get_participants}
use video_calling.Calls.History.{get_call_history}
use video_calling.Contacts.{
  list_contacts, accept_contact_save, reject_contact_save, update_nickname, remove_contact,
}
use video_calling.Web.{calls, call, participants, contacts, saved, Reply, respond}
use video_calling.Web.Accounts.{
  HttpRequest, Route, with_user, post_register, post_login, post_refresh, post_logout,
  delete_sessions,
}

-- `DefaultValuePipe(20)` and `DefaultValuePipe(0)`
unfoldable pub get_history : (limit offset : Option ℕ) → JwtPayload → Route
get_history limit offset user =
    gets (get_call_history user.sub (or_else limit 20) (or_else offset 0)) >>= λ found.
    pure (some (calls found), [])

unfoldable pub get_call : (call_id : ℕ) → Route
get_call call_id = get_call_by_id call_id >>= λ found. pure (some (call found), [])

unfoldable pub get_call_participants : (call_id : ℕ) → Route
get_call_participants call_id =
    gets (get_participants call_id) >>= λ found. pure (some (participants found), [])

unfoldable pub get_contacts : JwtPayload → Route
get_contacts user = gets (list_contacts user.sub) >>= λ found. pure (some (contacts found), [])

unfoldable pub post_accept : (first second now request_id : ℕ) (ip : Text) → JwtPayload → Route
post_accept first second now request_id ip user =
    accepting (accept_contact_save first second now request_id user.sub ip) >>= λ done.
    pure (some (saved done), [])
  where
    accepting : (Database → Bool × Database) → Action Database Bool
    accepting f d = let (done, d') = f d in (Result.ok done, d')

unfoldable pub post_reject : (now request_id : ℕ) → JwtPayload → Route
post_reject now request_id user =
    modify (reject_contact_save now request_id user.sub) >> pure (none, [])

unfoldable pub patch_nickname : (contact_id nickname : ℕ) → JwtPayload → Route
patch_nickname contact_id nickname user =
    modify (update_nickname user.sub contact_id nickname) >> pure (none, [])

unfoldable pub delete_contact : (contact_id : ℕ) → JwtPayload → Route
delete_contact contact_id user = modify (remove_contact user.sub contact_id) >> pure (none, [])

-- The routes without `@Public()`, with what the requests carry.
pub data Protected : Type 0 where
  logout_route sessions_route : Protected
  history_route : (limit offset : Option ℕ) → Protected
  call_route participants_route : (call_id : ℕ) → Protected
  contacts_route : Protected
  accept_route : (first second request_id : ℕ) (ip : Text) → Protected
  reject_route : (request_id : ℕ) → Protected
  nickname_route : (contact_id nickname : ℕ) → Protected
  remove_route : (contact_id : ℕ) → Protected

pub data Open : Type 0 where
  register_route : (user_id salt email password : ℕ) → Open
  login_route : Draws → (email password : ℕ) → Open
  refresh_route : Draws → Open

-- `@HttpCode`, or the framework's 201 for POST and 200 for the others.
abbrev pub protected_status : Protected → ℕ
protected_status logout_route = 204
protected_status sessions_route = 204
protected_status (accept_route _ _ _ _) = 201
protected_status (reject_route _) = 201
protected_status _ = 200

abbrev pub protected_handler : (now : ℕ) → Protected → JwtPayload → Route
protected_handler now logout_route user = post_logout user
protected_handler now sessions_route user = delete_sessions user
protected_handler now (history_route limit offset) user = get_history limit offset user
protected_handler now (call_route call_id) user = get_call call_id
protected_handler now (participants_route call_id) user = get_call_participants call_id
protected_handler now contacts_route user = get_contacts user
protected_handler now (accept_route first second request_id ip) user =
    post_accept first second now request_id ip user
protected_handler now (reject_route request_id) user = post_reject now request_id user
protected_handler now (nickname_route contact_id nickname) user =
    patch_nickname contact_id nickname user
protected_handler now (remove_route contact_id) user = delete_contact contact_id user

abbrev pub answered_by : (status now url : ℕ) → Route → Database → Reply × Database
answered_by status now url route d = let (r, d') = route d in (respond status now url r, d')

-- `@UseGuards(JwtAuthGuard)`
abbrev pub behind_guard :
    (now : ℕ) (is_public : Bool) → HttpRequest → (Option JwtPayload → Route) → Route
behind_guard now is_public req route = jwt_can_activate now is_public req.verified >>= route

unfoldable pub serve_protected : (now : ℕ) → Protected → HttpRequest → Database → Reply × Database
serve_protected now route req =
    answered_by (protected_status route) now req.url
      (behind_guard now false req (with_user (protected_handler now route)))

module _ (ext : External) (config : Config) (is_prod : Bool) (unknown_agent : ℕ) where
  abbrev pub open_handler : (now : ℕ) → Open → HttpRequest → Option JwtPayload → Route
  open_handler now (register_route user_id salt email password) req _ =
      post_register ext config is_prod unknown_agent user_id salt email password
  open_handler now (login_route draws email password) req _ =
      post_login ext config is_prod unknown_agent draws now email password req
  open_handler now (refresh_route draws) req _ =
      post_refresh ext config is_prod unknown_agent draws now req

  unfoldable pub serve_open : (now : ℕ) → Open → HttpRequest → Database → Reply × Database
  serve_open now route req =
      answered_by 200 now req.url (behind_guard now true req (open_handler now route req))
