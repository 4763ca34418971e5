-- ===== src/Client/AnonymousRoom.antt =====
-- frontend/src/app/anonymous/page.tsx: the page that matches strangers, without its rendering, its
-- navigation and its log lines. A handler gives what it emits, and runs to its end or, where it waits
-- for a request, up to the request; the media and the connection are those of Client.Media and
-- Client.Peer.
use video_calling.Base.{
  ℕ, Bool, true, false, not, ◌&&◌, Option, none, some, List, [], ◌∷◌, if◌then◌else◌, truthy_option,
  or_else,
}
use video_calling.Database.{CallType, video}

pub data MatchState : Type 0 where
  idle queue matched : MatchState

abbrev pub is_queue : MatchState → Bool
is_queue queue = true
is_queue _ = false

-- What `match:found` carries.
pub record Partner : Type 0 where
  pub call_id : ℕ
  pub is_initiator : Bool
  pub partner_user_id : Option ℕ

pub record Page : Type 0 where
  pub match_state : MatchState
  pub call_id : Option ℕ
  pub is_initiator : Bool
  pub show_contact_save : Bool
  pub incoming_request_id : Option ℕ
  pub contact_request_sent : Bool
  pub partner_info : Option Partner
  pub online_users : ℕ
  pub searching_users : ℕ
  pub queued : Bool

abbrev pub new_page : Page
new_page = record {
  match_state = queue;
  call_id = none;
  is_initiator = false;
  show_contact_save = false;
  incoming_request_id = none;
  contact_request_sent = false;
  partner_info = none;
  online_users = 0;
  searching_users = 0;
  queued = false;
}

-- The events that the page emits, and its requests.
pub data Emitted : Type 0 where
  join_queue : (preferred_type : CallType) → Emitted
  queue_status_request : Emitted
  call_end : (call_id : ℕ) → Emitted
  request_save : (call_id to_user : ℕ) → Emitted
  accept_request reject_request : (request_id : ℕ) → Emitted

abbrev pub Handled : Type 0
Handled = List Emitted × Page

-- `match:queued` and `match:queue-status`; a missing count is 0.
unfoldable pub on_counts : (online searching : Option ℕ) → Page → Page
on_counts online searching p = record p {
  online_users = or_else online 0;
  searching_users = or_else searching 0;
}

unfoldable pub on_match : Partner → Page → Page
on_match found p = record p {
  call_id = some found.call_id;
  is_initiator = found.is_initiator;
  partner_info = some found;
  match_state = matched;
  show_contact_save = false;
  contact_request_sent = false;
}

unfoldable pub on_save_request : (request_id : ℕ) → Page → Page
on_save_request request_id p = record p {
  incoming_request_id = some request_id;
  show_contact_save = true;
}

-- The effect, when it runs with the socket connected or not.
abbrev pub joining : Bool → Page → Handled
joining true p = (queue_status_request ∷ join_queue video ∷ [], record p { queued = true })
joining false p = (queue_status_request ∷ [], p)

unfoldable pub effect : (is_connected : Bool) → Page → Handled
effect false p = ([], p)
effect true p = joining (is_queue p.match_state && (not p.show_contact_save && not p.queued)) p

-- `onCallEnded`
unfoldable pub on_call_ended : Page → Handled
on_call_ended p = (
  join_queue video ∷ [],
  record p {
    show_contact_save = false;
    call_id = none;
    partner_info = none;
    is_initiator = false;
    contact_request_sent = false;
    match_state = queue;
    queued = true;
  },
)

abbrev pub ending : Option ℕ → List Emitted
ending none = []
ending (some call_id) = if truthy_option (some call_id) then call_end call_id ∷ [] else []

unfoldable pub handle_leave : Page → Handled
handle_leave p = (
  ending p.call_id,
  record p {
    queued = false;
    call_id = none;
    partner_info = none;
    show_contact_save = false;
    contact_request_sent = false;
    match_state = idle;
  },
)

abbrev pub answering : (accept : Bool) → Option ℕ → List Emitted
answering accept none = []
answering accept (some id) =
    if truthy_option (some id)
    then (if accept then accept_request id else reject_request id) ∷ []
    else []

-- The id is kept while its request is under way.
abbrev pub under_way : Option ℕ → Option ℕ
under_way id = if truthy_option id then id else none

-- `handleContactResponse` as far as its request; an error of the request is only logged.
unfoldable pub handle_contact_response : (accept : Bool) → Page → Handled
handle_contact_response accept p = (
  answering accept p.incoming_request_id,
  record p { show_contact_save = false; incoming_request_id = under_way p.incoming_request_id },
)

-- Its rest, when the request has come to an end.
unfoldable pub contact_answered : Page → Page
contact_answered p = record p { incoming_request_id = none }

abbrev pub saving : (call_id partner : Option ℕ) → Page → Handled
saving (some call_id) (some partner) p =
    if truthy_option (some partner) && truthy_option (some call_id)
    then (request_save call_id partner ∷ [], record p { contact_request_sent = true })
    else ([], p)
saving _ _ p = ([], p)

abbrev pub partner_user : Option Partner → Option ℕ
partner_user none = none
partner_user (some info) = info.partner_user_id

unfoldable pub handle_save_contact : Page → Handled
handle_save_contact p = saving p.call_id (partner_user p.partner_info) p
