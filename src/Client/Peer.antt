-- ===== src/Client/Peer.antt =====
-- frontend/src/hooks/useWebRTC.ts: one side of a call. A handler runs to its end, and gives what it
-- emits; what the browser draws (descriptions, candidates) is an argument, and a description is its
-- number. The browser's connection is its signalling state, with the transitions of the WebRTC
-- specification, and the candidates that it was given. Local tracks are left out.
use video_calling.Base.{
  ℕ, Bool, true, false, not, ◌&&◌, Option, none, some, List, [], ◌∷◌, ◌++◌, if◌then◌else◌, truthy,
}

pub data SignalingState : Type 0 where
  stable have_local_offer have_remote_offer : SignalingState

abbrev pub is_stable : SignalingState → Bool
is_stable stable = true
is_stable _ = false

abbrev pub is_have_local_offer : SignalingState → Bool
is_have_local_offer have_local_offer = true
is_have_local_offer _ = false

-- `initiator` and `joined` are what the handlers of the connection captured when it was made.
pub record Connection : Type 0 where
  pub signaling : SignalingState
  pub initiator : Bool
  pub joined : Bool
  pub candidates : List ℕ

pub record Peer : Type 0 where
  pub call_id : ℕ
  pub is_initiator : Bool
  pub is_connected : Bool
  pub partner_joined : Bool
  pub offer_sent : Bool
  pub connection : Option Connection
  pub remote_stream : Option ℕ

-- What is emitted for the call.
pub data Signal : Type 0 where
  offer answer ice : (body : ℕ) → Signal
  call_end : Signal

abbrev pub Handled : Type 0
Handled = List Signal × Peer

abbrev pub with_signaling : SignalingState → Connection → Connection
with_signaling state c = record c { signaling = state }

-- The hook's first state: the callee takes its partner for joined.
abbrev pub new_peer : (call_id : ℕ) (is_initiator is_connected : Bool) → Peer
new_peer call_id is_initiator is_connected = record {
  call_id = call_id;
  is_initiator = is_initiator;
  is_connected = is_connected;
  partner_joined = not is_initiator;
  offer_sent = false;
  connection = none;
  remote_stream = none;
}

abbrev pub cleanup_peer_connection : Peer → Peer
cleanup_peer_connection p = record p { connection = none; offer_sent = false; remote_stream = none }

abbrev pub end_call : Peer → Handled
end_call p = (call_end ∷ [], cleanup_peer_connection p)

abbrev pub made : Option Connection → Peer → Peer
made (some c) p = p
made none p = record p {
  connection = some (record {
    signaling = stable;
    initiator = p.is_initiator;
    joined = p.partner_joined;
    candidates = [];
  });
}

unfoldable pub init_peer_connection : Peer → Peer
init_peer_connection p = made p.connection p

-- The effect of the first render and of a change of the socket or the call.
unfoldable pub set_up : Peer → Peer
unfolding init_peer_connection
set_up p = if p.is_connected && truthy p.call_id then init_peer_connection p else p

-- `pc.setLocalDescription(offer)` and the signal.
abbrev pub offering : (sdp : ℕ) → Connection → Peer → Handled
offering sdp c p = (
  offer sdp ∷ [],
  record p { offer_sent = true; connection = some (with_signaling have_local_offer c) },
)

-- The effect that makes the first offer, where the connection is there.
abbrev pub offer_on : (sdp : ℕ) → Option Connection → Peer → Handled
offer_on sdp none p = ([], p)
offer_on sdp (some c) p =
    if is_stable c.signaling && not p.offer_sent then offering sdp c p else ([], p)

unfoldable pub offer_effect : (sdp : ℕ) → Peer → Handled
offer_effect sdp p =
    if p.is_connected && (truthy p.call_id && (p.is_initiator && p.partner_joined))
    then offer_on sdp p.connection p
    else ([], p)

-- `pc.onnegotiationneeded`, of the connection that is there.
abbrev pub negotiate : (sdp : ℕ) → Option Connection → Peer → Handled
negotiate sdp none p = ([], p)
negotiate sdp (some c) p = if c.initiator && c.joined then offering sdp c p else ([], p)

unfoldable pub on_negotiation_needed : (sdp : ℕ) → Peer → Handled
on_negotiation_needed sdp p = negotiate sdp p.connection p

unfoldable pub on_ice_candidate : (candidate : Option ℕ) → Peer → Handled
on_ice_candidate none p = ([], p)
on_ice_candidate (some candidate) p = (ice candidate ∷ [], p)

unfoldable pub on_track : (stream : ℕ) → Peer → Peer
on_track stream p = record p { remote_stream = some stream }

-- `lost` if the state is 'disconnected' or 'failed'.
unfoldable pub on_ice_connection_state_change : (lost : Bool) → Peer → Handled
on_ice_connection_state_change true p = end_call p
on_ice_connection_state_change false p = ([], p)

unfoldable pub handle_accepted : Peer → Peer
handle_accepted p = record p { partner_joined = true }

-- The offer is set, an answer is made and set, which leaves the connection stable.
abbrev pub answer_on : (sdp : ℕ) → Option Connection → Peer → Handled
answer_on sdp none p = ([], p)
answer_on sdp (some c) p =
    if p.is_initiator
    then ([], p)
    else if is_stable c.signaling
    then (answer sdp ∷ [], record p { connection = some (with_signaling stable c) })
    else ([], p)

unfoldable pub handle_offer : (answer_sdp : ℕ) → Peer → Handled
handle_offer answer_sdp p = answer_on answer_sdp p.connection p

abbrev pub answered_on : Option Connection → Peer → Peer
answered_on none p = p
answered_on (some c) p =
    if not p.is_initiator
    then p
    else if is_have_local_offer c.signaling
    then record p { connection = some (with_signaling stable c) }
    else p

unfoldable pub handle_answer : Peer → Peer
handle_answer p = answered_on p.connection p

abbrev pub add_candidate : (candidate : ℕ) → Option Connection → Peer → Peer
add_candidate candidate none p = p
add_candidate candidate (some c) p = record p {
  connection = some (record c { candidates = c.candidates ++ candidate ∷ [] });
}

unfoldable pub handle_ice : (candidate : ℕ) → Peer → Peer
handle_ice candidate p = add_candidate candidate p.connection p

unfoldable pub handle_call_ended : Peer → Peer
handle_call_ended p = cleanup_peer_connection p
