-- ===== src/Client/Negotiation.antt =====
-- The invariant of the two sides of a call over every step.
use video_calling.Base.{
  ℕ, ◌≡◌, inl, inr, refl, ap, sym, subst, ◌∙◌, true, false, ◌&&◌, some, List, [], ◌∷◌, ◌++◌,
  Bool-cases,
}
use video_calling.Client.Peer.{
  stable, have_local_offer, Connection, Peer, Signal, offer, answer, offer_effect,
  on_negotiation_needed, handle_accepted, answer_on, handle_offer, answered_on, handle_answer,
  with_signaling,
}
use video_calling.Client.Handshake.{
  Line, LineStep, accepts, offers, callee_accepts, callee_offers, offer_effect-callee,
  caller_negotiates, callee_negotiates, offer_arrives, answer_arrives, from_caller, from_callee,
  signaling_of, IsInOrder, offer_effect-cases, on_negotiation_needed-cases, silent-caller,
  silent-callee, offering-IsInOrder,
}

accepts-IsInOrder :
    (l : Line) → IsInOrder l → IsInOrder (record l { caller = handle_accepted l.caller })
unfolding handle_accepted
accepts-IsInOrder l h = record {
  roles = record {
    caller_role = h.roles.caller_role;
    callee_role = h.roles.callee_role;
    caller_connection = h.roles.caller_connection;
    caller_made = h.roles.caller_made;
    callee_connection = h.roles.callee_connection;
    callee_made = h.roles.callee_made;
    callee_captured = h.roles.callee_captured;
    callee_stable = h.roles.callee_stable;
  };
  phase = h.phase;
}

offers-IsInOrder :
    (sdp : ℕ) (l : Line) → IsInOrder l → IsInOrder (from_caller (offer_effect sdp l.caller) l)
offers-IsInOrder sdp l h =
    elim (offer_effect-cases sdp l.caller h.roles.caller_connection h.roles.caller_made) [
      | inl idle ↦ subst (λ r. IsInOrder (from_caller r l)) (sym idle) (silent-caller l h)
      | inr (state, _, made) ↦
          subst (λ r. IsInOrder (from_caller r l)) (sym made) (offering-IsInOrder sdp l h state)
    ]

callee_accepts-IsInOrder :
    (l : Line) → IsInOrder l → IsInOrder (record l { callee = handle_accepted l.callee })
unfolding handle_accepted
callee_accepts-IsInOrder l h = record {
  roles = record {
    caller_role = h.roles.caller_role;
    callee_role = h.roles.callee_role;
    caller_connection = h.roles.caller_connection;
    caller_made = h.roles.caller_made;
    callee_connection = h.roles.callee_connection;
    callee_made = h.roles.callee_made;
    callee_captured = h.roles.callee_captured;
    callee_stable = h.roles.callee_stable;
  };
  phase = h.phase;
}

callee_offers-IsInOrder :
    (sdp : ℕ) (l : Line) → IsInOrder l → IsInOrder (from_callee (offer_effect sdp l.callee) l)
callee_offers-IsInOrder sdp l h =
    subst (λ r. IsInOrder (from_callee r l))
      (sym (offer_effect-callee sdp l.callee h.roles.callee_role)) (silent-callee l h)

caller_negotiates-IsInOrder :
    (sdp : ℕ) (l : Line)
    → signaling_of l.caller.connection ≡ stable
    → IsInOrder l
    → IsInOrder (from_caller (on_negotiation_needed sdp l.caller) l)
caller_negotiates-IsInOrder sdp l state h =
    let c = h.roles.caller_connection in
    let (idle, ready) = on_negotiation_needed-cases sdp l.caller c h.roles.caller_made in
    elim (Bool-cases (c.initiator && c.joined)) [
      | inr unasked ↦
          subst (λ r. IsInOrder (from_caller r l)) (sym (idle unasked)) (silent-caller l h)
      | inl asked ↦
          subst (λ r. IsInOrder (from_caller r l)) (sym (ready asked))
            (offering-IsInOrder sdp l h (sym (ap signaling_of h.roles.caller_made) ∙ state))
    ]

callee_negotiates-IsInOrder :
    (sdp : ℕ) (l : Line)
    → IsInOrder l
    → IsInOrder (from_callee (on_negotiation_needed sdp l.callee) l)
callee_negotiates-IsInOrder sdp l h =
    let c = h.roles.callee_connection in
    let (idle, _) = on_negotiation_needed-cases sdp l.callee c h.roles.callee_made in
    let quiet : c.initiator && c.joined ≡ false = rw h.roles.callee_captured refl in
    subst (λ r. IsInOrder (from_callee r l)) (sym (idle quiet)) (silent-callee l h)

-- The callee answers every offer.
pub handle_offer-answers :
    (sdp : ℕ) (p : Peer) (c : Connection)
    → p.connection ≡ some c
    → p.is_initiator ≡ false
    → c.signaling ≡ stable
    → handle_offer sdp p
      ≡ (answer sdp ∷ [], record p { connection = some (with_signaling stable c) })
unfolding handle_offer
handle_offer-answers sdp p c made role state =
    ap (λ o. answer_on sdp o p) made ∙ rw (role, state) refl

pub handle_answer-settles :
    (p : Peer) (c : Connection)
    → p.connection ≡ some c
    → p.is_initiator ≡ true
    → c.signaling ≡ have_local_offer
    → handle_answer p ≡ record p { connection = some (with_signaling stable c) }
unfolding handle_answer
handle_answer-settles p c made role state = ap (λ o. answered_on o p) made ∙ rw (role, state) refl

offer_arrives-IsInOrder :
    (body sdp : ℕ) (rest : List Signal) (l : Line)
    → l.to_callee ≡ offer body ∷ rest
    → IsInOrder l
    → IsInOrder (from_callee (handle_offer sdp l.callee) (record l { to_callee = rest }))
offer_arrives-IsInOrder body sdp rest l wire h =
    let c = h.roles.callee_connection in
    let done =
      handle_offer-answers sdp l.callee c h.roles.callee_made h.roles.callee_role
        h.roles.callee_stable in
    subst (λ r. IsInOrder (from_callee r (record l { to_callee = rest }))) (sym done)
      (record {
        roles = record {
          caller_role = h.roles.caller_role;
          callee_role = h.roles.callee_role;
          caller_connection = h.roles.caller_connection;
          caller_made = h.roles.caller_made;
          callee_connection = with_signaling stable c;
          callee_made = refl;
          callee_captured = h.roles.callee_captured;
          callee_stable = refl;
        };
        phase = elim h.phase [
          | inl (_, none_sent, _) ↦ absurd (cc)
          | inr (inl (x, state, sent, back)) ↦
              inr (inr (sdp, state, cc, ap (λ xs. xs ++ answer sdp ∷ []) back))
          | inr (inr (_, _, none_sent, _)) ↦ absurd (cc)
        ];
      })

answer_arrives-IsInOrder :
    (body : ℕ) (rest : List Signal) (l : Line)
    → l.to_caller ≡ answer body ∷ rest
    → IsInOrder l
    → IsInOrder (record l { caller = handle_answer l.caller; to_caller = rest })
answer_arrives-IsInOrder body rest l wire h = elim h.phase [
  | inl (_, _, none_sent) ↦ absurd (cc)
  | inr (inl (_, _, _, none_sent)) ↦ absurd (cc)
  | inr (inr (x, state, sent, back)) ↦
      let c = h.roles.caller_connection in
      let done = handle_answer-settles l.caller c h.roles.caller_made h.roles.caller_role state in
      subst (λ p. IsInOrder (record l { caller = p; to_caller = rest })) (sym done)
        (record {
          roles = record {
            caller_role = h.roles.caller_role;
            callee_role = h.roles.callee_role;
            caller_connection = with_signaling stable c;
            caller_made = refl;
            callee_connection = h.roles.callee_connection;
            callee_made = h.roles.callee_made;
            callee_captured = h.roles.callee_captured;
            callee_stable = h.roles.callee_stable;
          };
          phase = inl (refl, sent, cc);
        })
]

pub step-IsInOrder : (l m : Line) → LineStep l m → IsInOrder l → IsInOrder m
step-IsInOrder _ _ (accepts l) h = accepts-IsInOrder l h
step-IsInOrder _ _ (offers sdp l) h = offers-IsInOrder sdp l h
step-IsInOrder _ _ (callee_accepts l) h = callee_accepts-IsInOrder l h
step-IsInOrder _ _ (callee_offers sdp l) h = callee_offers-IsInOrder sdp l h
step-IsInOrder _ _ (caller_negotiates sdp l state) h = caller_negotiates-IsInOrder sdp l state h
step-IsInOrder _ _ (callee_negotiates sdp l state) h = callee_negotiates-IsInOrder sdp l h
step-IsInOrder _ _ (offer_arrives body sdp rest l wire) h =
    offer_arrives-IsInOrder body sdp rest l wire h
step-IsInOrder _ _ (answer_arrives body rest l wire) h = answer_arrives-IsInOrder body rest l wire h
