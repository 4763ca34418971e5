-- ===== src/Client/Handshake.antt =====
-- Two peers of a call over a wire that keeps the order, and what each step of a side does there
-- (frontend/src/hooks/useWebRTC.ts on both sides).
use video_calling.Base.{
  ℕ, ◌≡◌, ◌≢◌, ◌⊎◌, inl, inr, refl, ap, sym, subst, ◌∙◌, arith, true, false, not, ◌&&◌, Option,
  none, some, List, [], ◌∷◌, ◌++◌, truthy, Bool-cases,
}
use mathlib.Core.List.{append-nil}
use video_calling.Client.Peer.{
  SignalingState, stable, have_local_offer, have_remote_offer, is_stable, Connection, Peer, Signal,
  offer, answer, Handled, offering, offer_on, offer_effect, negotiate, on_negotiation_needed,
  handle_accepted, handle_offer, handle_answer, with_signaling,
}

-- The two sides and what is under way to each. Candidates, which change no signalling state, are
-- left out.
pub record Line : Type 0 where
  pub caller : Peer
  pub callee : Peer
  pub to_callee : List Signal
  pub to_caller : List Signal

abbrev pub from_caller : Handled → Line → Line
from_caller (signals, p) l = record l { caller = p; to_callee = l.to_callee ++ signals }

abbrev pub from_callee : Handled → Line → Line
from_callee (signals, p) l = record l { callee = p; to_caller = l.to_caller ++ signals }

abbrev pub signaling_of : Option Connection → SignalingState
signaling_of none = stable
signaling_of (some c) = c.signaling

-- The browser asks for a negotiation in the stable state only.
pub data LineStep : Line → Line → Type 0 where
  accepts : (l : Line) → LineStep l (record l { caller = handle_accepted l.caller })
  offers : (sdp : ℕ) (l : Line) → LineStep l (from_caller (offer_effect sdp l.caller) l)
  callee_accepts : (l : Line) → LineStep l (record l { callee = handle_accepted l.callee })
  callee_offers : (sdp : ℕ) (l : Line) → LineStep l (from_callee (offer_effect sdp l.callee) l)
  caller_negotiates :
      (sdp : ℕ) (l : Line)
      → signaling_of l.caller.connection ≡ stable
      → LineStep l (from_caller (on_negotiation_needed sdp l.caller) l)
  callee_negotiates :
      (sdp : ℕ) (l : Line)
      → signaling_of l.callee.connection ≡ stable
      → LineStep l (from_callee (on_negotiation_needed sdp l.callee) l)
  offer_arrives :
      (body sdp : ℕ) (rest : List Signal) (l : Line)
      → l.to_callee ≡ offer body ∷ rest
      → LineStep l (from_callee (handle_offer sdp l.callee) (record l { to_callee = rest }))
  answer_arrives :
      (body : ℕ) (rest : List Signal) (l : Line)
      → l.to_caller ≡ answer body ∷ rest
      → LineStep l (record l { caller = handle_answer l.caller; to_caller = rest })

-- Each side has its role, and a connection that was made in it.
pub record HasRoles (l : Line) : Type 0 where
  pub caller_role : l.caller.is_initiator ≡ true
  pub callee_role : l.callee.is_initiator ≡ false
  pub caller_connection : Connection
  pub caller_made : l.caller.connection ≡ some caller_connection
  pub callee_connection : Connection
  pub callee_made : l.callee.connection ≡ some callee_connection
  pub callee_captured : callee_connection.initiator ≡ false
  pub callee_stable : callee_connection.signaling ≡ stable

-- Nothing is under way, or one offer is, or its answer.
abbrev pub Phase : SignalingState → (to_callee to_caller : List Signal) → Type 0
Phase state a b =
    ((state ≡ stable) × (a ≡ []) × (b ≡ []))
    ⊎ (((sdp : ℕ) × (state ≡ have_local_offer) × (a ≡ offer sdp ∷ []) × (b ≡ []))
        ⊎ ((sdp : ℕ) × (state ≡ have_local_offer) × (a ≡ []) × (b ≡ answer sdp ∷ [])))

pub record IsInOrder (l : Line) : Type 0 where
  pub roles : HasRoles l
  pub phase : Phase roles.caller_connection.signaling l.to_callee l.to_caller

stable_of : (s : SignalingState) → is_stable s ≡ true → s ≡ stable
stable_of stable h = refl
stable_of have_local_offer h = absurd (cc)
stable_of have_remote_offer h = absurd (cc)

pub offer_effect-cases :
    (sdp : ℕ) (p : Peer) (c : Connection)
    → p.connection ≡ some c
    → (offer_effect sdp p ≡ ([], p))
      ⊎ ((c.signaling ≡ stable) × (p.offer_sent ≡ false) × (offer_effect sdp p ≡ offering sdp c p))
unfolding offer_effect
offer_effect-cases sdp p c is_made =
    elim (Bool-cases
      (p.is_connected && (truthy p.call_id && (p.is_initiator && p.partner_joined)))) [
        | inr idle ↦ inl (rw idle refl)
        | inl ready ↦ elim (Bool-cases (is_stable c.signaling && not p.offer_sent)) [
          | inr no_offer ↦ inl (rw ready (ap (λ o. offer_on sdp o p) is_made ∙ rw no_offer refl))
          | inl now ↦ inr (
            stable_of c.signaling (ground arith),
            ground arith,
            rw ready (ap (λ o. offer_on sdp o p) is_made ∙ rw now refl),
          )
        ]
      ]

-- The side that is not the initiator makes no offer.
pub offer_effect-callee :
    (sdp : ℕ) (p : Peer) → p.is_initiator ≡ false → offer_effect sdp p ≡ ([], p)
unfolding offer_effect
offer_effect-callee sdp p role = rw role (ground arith)

pub offer_effect-ready :
    (sdp : ℕ) (p : Peer) (c : Connection)
    → p.connection ≡ some c
    → c.signaling ≡ stable
    → p.offer_sent ≡ false
    → p.is_connected ≡ true
    → truthy p.call_id ≡ true
    → p.is_initiator ≡ true
    → p.partner_joined ≡ true
    → offer_effect sdp p ≡ offering sdp c p
unfolding offer_effect
offer_effect-ready sdp p c is_made state unsent up call role joined =
    let ready : (p.is_connected && (truthy p.call_id && (p.is_initiator && p.partner_joined)))
        ≡ true =
      ground arith in
    let now : (is_stable c.signaling && not p.offer_sent) ≡ true =
      let s : is_stable c.signaling ≡ true = ap is_stable state in ground arith in
    rw ready (ap (λ o. offer_on sdp o p) is_made ∙ rw now refl)

pub on_negotiation_needed-cases :
    (sdp : ℕ) (p : Peer) (c : Connection)
    → p.connection ≡ some c
    → ((c.initiator && c.joined ≡ false) → on_negotiation_needed sdp p ≡ ([], p))
      × ((c.initiator && c.joined ≡ true) → on_negotiation_needed sdp p ≡ offering sdp c p)
unfolding on_negotiation_needed
on_negotiation_needed-cases sdp p c is_made = (
  λ idle. ap (λ o. negotiate sdp o p) is_made ∙ rw idle refl,
  λ ready. ap (λ o. negotiate sdp o p) is_made ∙ rw ready refl,
)

-- A handler that emits nothing and changes nothing.
pub silent-caller : (l : Line) → IsInOrder l → IsInOrder (from_caller ([], l.caller) l)
silent-caller l h = record {
  roles = record {
    caller_role = h.roles.caller_role;
    callee_role = h.roles.callee_role;
    caller_connection = h.roles.caller_connection;
    caller_made = h.roles.caller_made;
    callee_connection = h.roles.callee_connection;
    callee_made = h.roles.callee_made;
    callee_captured = h.roles.callee_captured;
    callee_stable = h.roles.callee_stable;
  };
  phase =
      subst (λ a. Phase h.roles.caller_connection.signaling a l.to_caller)
        (sym (append-nil l.to_callee)) h.phase;
}

pub silent-callee : (l : Line) → IsInOrder l → IsInOrder (from_callee ([], l.callee) l)
silent-callee l h = record {
  roles = record {
    caller_role = h.roles.caller_role;
    callee_role = h.roles.callee_role;
    caller_connection = h.roles.caller_connection;
    caller_made = h.roles.caller_made;
    callee_connection = h.roles.callee_connection;
    callee_made = h.roles.callee_made;
    callee_captured = h.roles.callee_captured;
    callee_stable = h.roles.callee_stable;
  };
  phase =
      subst (λ b. Phase h.roles.caller_connection.signaling l.to_callee b)
        (sym (append-nil l.to_caller)) h.phase;
}

-- In the stable state nothing is under way, so that an offer is the only signal.
pub offering-IsInOrder :
    (sdp : ℕ) (l : Line) (h : IsInOrder l)
    → h.roles.caller_connection.signaling ≡ stable
    → IsInOrder (from_caller (offering sdp h.roles.caller_connection l.caller) l)
offering-IsInOrder sdp l h state = record {
  roles = record {
    caller_role = h.roles.caller_role;
    callee_role = h.roles.callee_role;
    caller_connection = with_signaling have_local_offer h.roles.caller_connection;
    caller_made = refl;
    callee_connection = h.roles.callee_connection;
    callee_made = h.roles.callee_made;
    callee_captured = h.roles.callee_captured;
    callee_stable = h.roles.callee_stable;
  };
  phase = elim h.phase [
    | inl (_, a, b) ↦ inr (inl (sdp, refl, ap (λ xs. xs ++ offer sdp ∷ []) a, b))
    | inr (inl (_, waiting, _, _)) ↦ absurd (not_waiting (sym state ∙ waiting))
    | inr (inr (_, waiting, _, _)) ↦ absurd (not_waiting (sym state ∙ waiting))
  ];
}
  where
    not_waiting : stable ≢ have_local_offer
    not_waiting e = cc
