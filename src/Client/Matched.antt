-- ===== src/Client/Matched.antt =====
-- What the page that matches strangers shows and asks for, over every event
-- (frontend/src/app/anonymous/page.tsx).
use video_calling.Base.{
  ℕ, ◌≡◌, ◌⊎◌, inl, inr, refl, sym, subst, ◌∙◌, arith, Bool, true, false, not, ◌&&◌, Option, none,
  some, [], ◌∷◌, truthy_option, exists_where, Bool-cases,
}
use video_calling.Client.AnonymousRoom.{
  MatchState, idle, queue, matched, is_queue, Partner, Page, Emitted, join_queue, request_save,
  Handled, on_counts, on_match, on_save_request, joining, effect, on_call_ended, handle_leave,
  answering, handle_contact_response, contact_answered, saving, partner_user, handle_save_contact,
}

-- What happens to the page.
pub data Event : Type 0 where
  counts : (online searching : Option ℕ) → Event
  found : Partner → Event
  save_requested : (request_id : ℕ) → Event
  renders : (is_connected : Bool) → Event
  ended left : Event
  responds : (accept : Bool) → Event
  answered : Event
  saves : Event

unfoldable pub run : Event → Page → Handled
unfolding on_counts on_match on_save_request effect on_call_ended handle_leave
    handle_contact_response contact_answered handle_save_contact
run (counts online searching) p = ([], on_counts online searching p)
run (found partner) p = ([], on_match partner p)
run (save_requested request_id) p = ([], on_save_request request_id p)
run (renders is_connected) p = effect is_connected p
run ended p = on_call_ended p
run left p = handle_leave p
run (responds accept) p = handle_contact_response accept p
run answered p = ([], contact_answered p)
run saves p = handle_save_contact p

-- While a match is shown, the call is the partner's; otherwise there is none, and nothing was asked.
abbrev pub IsOf : MatchState → Page → Type 0
IsOf matched p = (f : Partner) × (p.partner_info ≡ some f) × (p.call_id ≡ some f.call_id)
IsOf _ p = (p.call_id ≡ none) × (p.partner_info ≡ none) × (p.contact_request_sent ≡ false)

abbrev pub IsCoherent : Page → Type 0
IsCoherent p = IsOf p.match_state p

same_page-IsOf :
    (s : MatchState) (p q : Page)
    → q.partner_info ≡ p.partner_info
    → q.call_id ≡ p.call_id
    → q.contact_request_sent ≡ p.contact_request_sent
    → IsOf s p
    → IsOf s q
same_page-IsOf matched p q a b c (f, i, k) = (f, a ∙ i, b ∙ k)
same_page-IsOf idle p q a b c (k, i, s) = (b ∙ k, a ∙ i, c ∙ s)
same_page-IsOf queue p q a b c (k, i, s) = (b ∙ k, a ∙ i, c ∙ s)

joining-IsCoherent : (b : Bool) (p : Page) → IsCoherent p → IsCoherent (joining b p).1
joining-IsCoherent true p h = same_page-IsOf p.match_state p (joining true p).1 refl refl refl h
joining-IsCoherent false p h = h

-- A contact is asked for with a call and a partner, or nothing happens.
saving-cases :
    (c u : Option ℕ) (p : Page)
    → (saving c u p ≡ ([], p))
      ⊎ ((k : ℕ) × (t : ℕ) × (c ≡ some k)
          × (u ≡ some t)
          × (saving c u p ≡ (request_save k t ∷ [], record p { contact_request_sent = true })))
saving-cases none none p = inl refl
saving-cases none (some t) p = inl refl
saving-cases (some k) none p = inl refl
saving-cases (some k) (some t) p =
    elim (Bool-cases (truthy_option (some t) && truthy_option (some k))) [
      | inl both ↦ inr (k, t, refl, refl, rw both refl)
      | inr missing ↦ inl (rw missing refl)
    ]

asked-IsOf :
    (s : MatchState) (k : ℕ) (p : Page)
    → p.call_id ≡ some k
    → IsOf s p
    → IsOf s (record p { contact_request_sent = true })
asked-IsOf matched k p c h = h
asked-IsOf idle k p c (gone, _, _) = absurd (cc)
asked-IsOf queue k p c (gone, _, _) = absurd (cc)

saves-IsCoherent :
    (p : Page) → IsCoherent p → IsCoherent (saving p.call_id (partner_user p.partner_info) p).1
saves-IsCoherent p h = elim (saving-cases p.call_id (partner_user p.partner_info) p) [
  | inl nothing ↦ subst (λ r. IsCoherent r.1) (sym nothing) h
  | inr (k, t, call, user, asked) ↦
      subst (λ r. IsCoherent r.1) (sym asked) (asked-IsOf p.match_state k p call h)
]

-- Every event keeps what the page shows coherent, in whatever order the answers to its requests
-- arrive: while a match is shown, the call is that of the partner who was found, and otherwise there
-- is no call and no partner and no contact was asked for.
pub run-IsCoherent : (e : Event) (p : Page) → IsCoherent p → IsCoherent (run e p).1
unfolding run
run-IsCoherent (counts online searching) p h =
    same_page-IsOf p.match_state p (on_counts online searching p) refl refl refl h
run-IsCoherent (found partner) p h = (partner, refl, refl)
run-IsCoherent (save_requested request_id) p h =
    same_page-IsOf p.match_state p (on_save_request request_id p) refl refl refl h
run-IsCoherent (renders false) p h = h
run-IsCoherent (renders true) p h =
    joining-IsCoherent (is_queue p.match_state && (not p.show_contact_save && not p.queued)) p h
run-IsCoherent ended p h = (refl, refl, refl)
run-IsCoherent left p h = (refl, refl, refl)
run-IsCoherent (responds accept) p h =
    same_page-IsOf p.match_state p (handle_contact_response accept p).1 refl refl refl h
run-IsCoherent answered p h = same_page-IsOf p.match_state p (contact_answered p) refl refl refl h
run-IsCoherent saves p h = saves-IsCoherent p h

abbrev pub is_join : Emitted → Bool
is_join (join_queue t) = true
is_join _ = false

-- Events between the calls: the end of a call and leaving are not among them.
abbrev pub is_between : Event → Bool
is_between ended = false
is_between left = false
is_between _ = true

-- A contact request that arrives while the answer to an earlier one is under way loses its id with
-- that answer: its banner is shown with no request to answer.
run-lost_request :
    (request_id : ℕ) (accept : Bool) (p : Page)
    → let q = (run answered (run (save_requested request_id) (run (responds accept) p).1).1).1 in
      (q.show_contact_save ≡ true) × (q.incoming_request_id ≡ none)
unfolding run
run-lost_request request_id accept p = (refl, refl)

saving-quiet :
    (c u : Option ℕ) (p : Page)
    → (exists_where is_join (saving c u p).0 ≡ false) × ((saving c u p).1.queued ≡ p.queued)
saving-quiet c u p = elim (saving-cases c u p) [
  | inl nothing ↦ rw nothing (refl, refl)
  | inr (k, t, _, _, asked) ↦ rw asked (refl, refl)
]

answering-quiet : (accept : Bool) (o : Option ℕ) → exists_where is_join (answering accept o) ≡ false
answering-quiet accept none = refl
answering-quiet accept (some id) = ground arith

-- Once the page has asked to join the queue it does not ask again until a call ends or the user
-- leaves, whatever happens between, a connection that is lost and made again among it.
pub run-quiet :
    (e : Event) (p : Page)
    → p.queued ≡ true
    → is_between e ≡ true
    → (exists_where is_join (run e p).0 ≡ false) × ((run e p).1.queued ≡ true)
unfolding run
run-quiet (counts online searching) p q b = (refl, q)
run-quiet (found partner) p q b = (refl, q)
run-quiet (save_requested request_id) p q b = (refl, q)
run-quiet (renders false) p q b = (refl, q)
run-quiet (renders true) p q b = ground (arith, q)
run-quiet ended p q b = absurd (cc)
run-quiet left p q b = absurd (cc)
run-quiet (responds accept) p q b = (answering-quiet accept p.incoming_request_id, q)
run-quiet answered p q b = (refl, q)
run-quiet saves p q b =
    let (no_join, kept) = saving-quiet p.call_id (partner_user p.partner_info) p in
    (no_join, kept ∙ q)
