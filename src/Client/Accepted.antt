-- ===== src/Client/Accepted.antt =====
-- A call that has been accepted: what stays so of its caller over every step of the two sides
-- (frontend/src/hooks/useWebRTC.ts).
use video_calling.Base.{
  ℕ, ◌≡◌, ◌⊎◌, inl, inr, refl, sym, ap, subst, ◌∙◌, arith, none, Bool, Bool-cases, some, true,
  false, [], truthy,
}
use video_calling.Client.Peer.{
  SignalingState, stable, have_local_offer, with_signaling, is_have_local_offer, answered_on,
  Connection, Peer, new_peer, set_up, offer_effect, on_negotiation_needed, handle_accepted,
  handle_answer,
}
use video_calling.Client.Negotiation.{step-IsInOrder}
use video_calling.Client.Handshake.{
  accepts, offers, callee_accepts, callee_offers, caller_negotiates, callee_negotiates,
  offer_arrives, answer_arrives, offer_effect-cases, offer_effect-ready,
  on_negotiation_needed-cases, Line, LineStep, signaling_of, IsInOrder,
}

-- The two sides of a call that has been accepted, each with its connection.
abbrev pub accepted_call : (call_id : ℕ) → Line
accepted_call call_id = record {
  caller = handle_accepted (set_up (new_peer call_id true true));
  callee = set_up (new_peer call_id false true);
  to_callee = [];
  to_caller = [];
}

pub accepted_call-IsInOrder :
    (call_id : ℕ) → truthy call_id ≡ true → IsInOrder (accepted_call call_id)
unfolding set_up handle_accepted
accepted_call-IsInOrder call_id there = rw there (record {
  roles = record {
    caller_role = refl;
    callee_role = refl;
    caller_connection = new_connection true false;
    caller_made = refl;
    callee_connection = new_connection false true;
    callee_made = refl;
    callee_captured = refl;
    callee_stable = refl;
  };
  phase = inl (refl, refl, refl);
})
  where
    new_connection : (initiator joined : Bool) → Connection
    new_connection initiator joined = record {
      signaling = stable;
      initiator = initiator;
      joined = joined;
      candidates = [];
    }

-- Any steps, in any order.
pub data Follows (l : Line) : Line → Type 0 where
  none_yet : Follows l l
  and_then : (m n : Line) → Follows l m → LineStep m n → Follows l n

-- The call is accepted, its caller's connection was made before, and is stable until it makes its
-- offer.
pub record IsAccepted (p : Peer) : Type 0 where
  pub is_up : p.is_connected ≡ true
  pub is_call : truthy p.call_id ≡ true
  pub has_partner : p.partner_joined ≡ true
  pub is_caller : p.is_initiator ≡ true
  pub captured : (c : Connection) → p.connection ≡ some c → c.joined ≡ false
  pub once : (p.offer_sent ≡ true) ⊎ (signaling_of p.connection ≡ stable)

accepts-IsAccepted : (p : Peer) → IsAccepted p → IsAccepted (handle_accepted p)
unfolding handle_accepted
accepts-IsAccepted p h = record {
  is_up = h.is_up;
  is_call = h.is_call;
  has_partner = refl;
  is_caller = h.is_caller;
  captured = h.captured;
  once = h.once;
}

-- A change of the signalling state that keeps the offer's flag, or sets it.
resignaled-IsAccepted :
    (p : Peer) (c : Connection) (sent : Bool) (state : SignalingState)
    → p.connection ≡ some c
    → (sent ≡ true) ⊎ (state ≡ stable)
    → IsAccepted p
    → IsAccepted (record p { offer_sent = sent; connection = some (with_signaling state c) })
resignaled-IsAccepted p c sent state is_made once h = record {
  is_up = h.is_up;
  is_call = h.is_call;
  has_partner = h.has_partner;
  is_caller = h.is_caller;
  captured = λ d. λ e. ap Connection.joined (some-injective (sym e)) ∙ h.captured c is_made;
  once = once;
}
  where
    some-injective : {a b : Connection} → some a ≡ some b → a ≡ b
    some-injective e = cc

-- Once an offer was made, the effect makes no other.
pub offer_effect-sent :
    (sdp : ℕ) (p : Peer) (c : Connection)
    → p.connection ≡ some c
    → p.offer_sent ≡ true
    → offer_effect sdp p ≡ ([], p)
offer_effect-sent sdp p c is_made sent = elim (offer_effect-cases sdp p c is_made) [
  | inl idle ↦ idle
  | inr (_, unsent, _) ↦ absurd (ground arith)
]

-- The effect of an accepted caller leaves an offer made.
pub offer_effect-makes :
    (sdp : ℕ) (p : Peer) (c : Connection)
    → p.connection ≡ some c
    → IsAccepted p
    → IsAccepted (offer_effect sdp p).1 × ((offer_effect sdp p).1.offer_sent ≡ true)
offer_effect-makes sdp p c is_made h = elim (Bool-cases p.offer_sent) [
  | inl sent ↦
      subst (λ r. IsAccepted r.1 × (r.1.offer_sent ≡ true))
        (sym (offer_effect-sent sdp p c is_made sent)) (h, sent)
  | inr unsent ↦
      let state : c.signaling ≡ stable = elim h.once [
        | inl sent ↦ absurd (cc)
        | inr stays ↦ ap signaling_of (sym is_made) ∙ stays
      ] in
      subst (λ r. IsAccepted r.1 × (r.1.offer_sent ≡ true))
        (sym (
          offer_effect-ready sdp p c is_made state unsent h.is_up h.is_call h.is_caller
            h.has_partner))
        (resignaled-IsAccepted p c true have_local_offer is_made (inl refl) h, refl)
]

pub on_negotiation_needed-idle :
    (sdp : ℕ) (p : Peer) (c : Connection)
    → p.connection ≡ some c
    → IsAccepted p
    → on_negotiation_needed sdp p ≡ ([], p)
on_negotiation_needed-idle sdp p c is_made h =
    let before : c.joined ≡ false = h.captured c is_made in
    (on_negotiation_needed-cases sdp p c is_made).0 (ground arith)

pub handle_answer-IsAccepted :
    (p : Peer) (c : Connection)
    → p.connection ≡ some c
    → IsAccepted p
    → IsAccepted (handle_answer p) × ((handle_answer p).offer_sent ≡ p.offer_sent)
unfolding handle_answer
handle_answer-IsAccepted p c is_made h = elim (Bool-cases (is_have_local_offer c.signaling)) [
  | inl waiting ↦
      subst (λ q. IsAccepted q × (q.offer_sent ≡ p.offer_sent))
        (sym (ap (λ o. answered_on o p) is_made ∙ rw (h.is_caller, waiting) refl))
        (resignaled-IsAccepted p c p.offer_sent stable is_made (inr refl) h, refl)
  | inr other ↦
      subst (λ q. IsAccepted q × (q.offer_sent ≡ p.offer_sent))
        (sym (ap (λ o. answered_on o p) is_made ∙ rw (h.is_caller, other) refl)) (h, refl)
]

step-IsAccepted :
    (l m : Line) → LineStep l m → IsInOrder l → IsAccepted l.caller → IsAccepted m.caller
step-IsAccepted _ _ (accepts l) o h = accepts-IsAccepted l.caller h
step-IsAccepted _ _ (offers sdp l) o h =
    (offer_effect-makes sdp l.caller o.roles.caller_connection o.roles.caller_made h).0
step-IsAccepted _ _ (callee_accepts l) o h = h
step-IsAccepted _ _ (callee_offers sdp l) o h = h
step-IsAccepted _ _ (caller_negotiates sdp l state) o h =
    subst (λ r. IsAccepted r.1)
      (sym
        (on_negotiation_needed-idle sdp l.caller o.roles.caller_connection o.roles.caller_made h))
      h
step-IsAccepted _ _ (callee_negotiates sdp l state) o h = h
step-IsAccepted _ _ (offer_arrives body sdp rest l wire) o h = h
step-IsAccepted _ _ (answer_arrives body rest l wire) o h =
    (handle_answer-IsAccepted l.caller o.roles.caller_connection o.roles.caller_made h).0

pub Follows-IsAccepted :
    (l m : Line)
    → Follows l m
    → IsInOrder l
    → IsAccepted l.caller
    → IsInOrder m × IsAccepted m.caller
Follows-IsAccepted l _ none_yet o h = (o, h)
Follows-IsAccepted l _ (and_then m n before step) o h =
    let (om, hm) = Follows-IsAccepted l m before o h in
    (step-IsInOrder m n step om, step-IsAccepted m n step om hm)

pub accepted_call-IsAccepted :
    (call_id : ℕ) → truthy call_id ≡ true → IsAccepted (accepted_call call_id).caller
unfolding set_up handle_accepted
accepted_call-IsAccepted call_id there = rw there (record {
  is_up = refl;
  is_call = there;
  has_partner = refl;
  is_caller = refl;
  captured = λ c. λ e. ap (λ o. elim o [ none ↦ false | some d ↦ d.joined ]) (sym e);
  once = inr refl;
})
