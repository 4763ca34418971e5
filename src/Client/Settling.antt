-- ===== src/Client/Settling.antt =====
-- The first handshake of an accepted call (frontend/src/hooks/useWebRTC.ts on both sides).
use video_calling.Base.{ℕ, ◌≡◌, List, [], ◌∷◌}
use video_calling.Client.Peer.{
  stable, Signal, offer, answer, offer_effect, on_negotiation_needed, handle_offer, handle_answer,
}
use video_calling.Client.Handshake.{Line, from_caller, from_callee, signaling_of}

-- The signals that are under way arrive.
abbrev pub deliver_offer : (answer_sdp : ℕ) → List Signal → Line → Line
deliver_offer answer_sdp (offer body ∷ rest) l =
    from_callee (handle_offer answer_sdp l.callee) (record l { to_callee = rest })
deliver_offer answer_sdp _ l = l

abbrev pub deliver_answer : List Signal → Line → Line
deliver_answer (answer body ∷ rest) l = record l {
  caller = handle_answer l.caller;
  to_caller = rest;
}
deliver_answer _ l = l

abbrev pub delivered : (answer_sdp : ℕ) → Line → Line
delivered answer_sdp l =
    let m = deliver_offer answer_sdp l.to_callee l in deliver_answer m.to_caller m

-- The caller's effect runs, and what is under way arrives.
abbrev pub settled_line : (sdp answer_sdp : ℕ) → Line → Line
settled_line sdp answer_sdp l = delivered answer_sdp (from_caller (offer_effect sdp l.caller) l)

-- Nothing is under way, both connections are stable, and neither the effect nor a demand to
-- negotiate makes another offer.
pub record IsSettled (l : Line) : Type 0 where
  pub to_callee : l.to_callee ≡ []
  pub to_caller : l.to_caller ≡ []
  pub caller : signaling_of l.caller.connection ≡ stable
  pub callee : signaling_of l.callee.connection ≡ stable
  pub no_effect : (sdp : ℕ) → offer_effect sdp l.caller ≡ ([], l.caller)
  pub no_demand : (sdp : ℕ) → on_negotiation_needed sdp l.caller ≡ ([], l.caller)
