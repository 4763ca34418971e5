-- ===== src/Gateway/Ringing.antt =====
-- A call that rings: its timer, and who can start one.
use video_calling.Base.{
  ℕ, arith, ◌≡◌, refl, ◌∙◌, ap, true, false, none, some, [], ◌∷◌, ◌++◌, lookup, lookup-erase,
  ==-self, non_empty, or_else, truthy_option, not, ◌≢◌, Bool-cases, inl, inr,
}
use video_calling.Database.{
  CallType, Action, ok, err, or_throw, target_missing, modify, pure, ◌>>=◌, ◌>>◌, >>=-ok, >>=-err,
  user_exists, user_exists_or_null, fk_violation, Status, CallSession,
}
use video_calling.Calls.{CallDraw, initiate_call, find_by_id, end_call, unanswered}
use video_calling.Calls.Participants.{end_call-call}
use video_calling.Calls.Initiate.{initiate_call-err}
use video_calling.Gateway.Answering.{get_meta-found}
use video_calling.Gateway.{
  SocketMeta, World, Timer, get_meta, on_database, call_missed, with_database, name, anonymous_name,
  origin, cancel_timer, forget_target, emit_to_socket,
}
use video_calling.Gateway.Calling.{
  on_call_initiate, place_call, find_target, ring, on_timeout, fire, give_up, rings_still,
}

on_timeout-set :
    (k now : ℕ) (w : World) (t : Timer)
    → lookup k w.missed_call_timers ≡ some t
    → on_timeout k now w ≡ give_up k now t (forget_target k (cancel_timer k w))
unfolding on_timeout
on_timeout-set k now w t set = ap (λ o. fire k now o w) set

give_up-waiting :
    (k now : ℕ) (t : Timer) (w : World)
    → rings_still (find_by_id k w.database) ≡ true
    → give_up k now t w
      ≡ emit_to_socket t.socket (call_missed k) (
          with_database
            (end_call now k (name t.caller) (anonymous_name t.caller) unanswered (origin t.caller))
            w)
give_up-waiting k now t w h = rw h refl

give_up-settled :
    (k now : ℕ) (t : Timer) (w : World)
    → rings_still (find_by_id k w.database) ≡ false
    → give_up k now t w ≡ w
give_up-settled k now t w h = rw h refl

give_up-maps :
    (k now : ℕ) (t : Timer) (w : World)
    → ((give_up k now t w).missed_call_timers ≡ w.missed_call_timers)
      × ((give_up k now t w).pending_call_targets ≡ w.pending_call_targets)
give_up-maps k now t w = elim (Bool-cases (rings_still (find_by_id k w.database))) [
  | inl waiting ↦ rw waiting (refl, refl)
  | inr settled ↦ rw settled (refl, refl)
]

-- When the timer of a call that is stored fires, the call has neither a timer nor a target any
-- more. If it still waits for an answer, it is missed and ends now, and its caller is told, and
-- nobody else; if not, the database is as it was, and nobody is told.
pub on_timeout-missed :
    (k now : ℕ) (w : World) (t : Timer) (c : CallSession)
    → lookup k w.missed_call_timers ≡ some t
    → find_by_id k w.database ≡ some c
    → let v : World = on_timeout k now w in
      (lookup k v.missed_call_timers ≡ none)
      × (lookup k v.pending_call_targets ≡ none)
      × ((rings_still (some c) ≡ true)
          → (find_by_id k v.database
              ≡ some (record c { status = Status.missed; ended_at = some now }))
            × (v.emitted ≡ w.emitted ++ (t.socket, call_missed k) ∷ []))
      × ((rings_still (some c) ≡ false) → (v.database ≡ w.database) × (v.emitted ≡ w.emitted))
on_timeout-missed k now w t c set found =
    let x : World = forget_target k (cancel_timer k w) in
    let run = on_timeout-set k now w t set in
    let maps = give_up-maps k now t x in
    (
      ap (λ v. lookup k v.missed_call_timers) run
          ∙ (ap (lookup k) maps.0 ∙ (lookup-erase k k w.missed_call_timers ∙ rw (==-self k) refl)),
      ap (λ v. lookup k v.pending_call_targets) run
          ∙ (ap (lookup k) maps.1
              ∙ (lookup-erase k k w.pending_call_targets ∙ rw (==-self k) refl)),
      λ waiting.
          let e = run ∙ give_up-waiting k now t x (ap rings_still found ∙ waiting) in
          (
            ap (λ v. find_by_id k v.database) e
                ∙ (end_call-call now k (name t.caller) (anonymous_name t.caller) unanswered
                    (origin t.caller) w.database c found).0,
            ap (λ v. v.emitted) e,
          ),
      λ settled.
          let e = run ∙ give_up-settled k now t x (ap rings_still found ∙ settled) in
          (ap (λ v. v.database) e, ap (λ v. v.emitted) e),
    )

is_target :
    (target : ℕ) (w : World)
    → target ≢ 0
    → or_throw (non_empty (some target)) target_missing w ≡ (ok target, w)
is_target target w real = ground arith

-- A socket without a user cannot call a user by id, unless its anonymous id happens to be a
-- user's: the call is refused with a foreign key violation, and nothing changes.
pub on_call_initiate-anonymous :
    (normalize : ℕ → ℕ) (draw : CallDraw) (socket now target : ℕ) (t : CallType) (w : World)
    (m : SocketMeta)
    → lookup socket w.sockets ≡ some m
    → m.user_id ≡ none
    → user_exists m.anonymous_id w.database ≡ false
    → target ≢ 0
    → on_call_initiate normalize draw socket now none (some target) t w ≡ (err fk_violation, w)
unfolding on_call_initiate place_call
on_call_initiate-anonymous normalize draw socket now target t w m found anonymous unknown real =
    let place : SocketMeta → ℕ → Action World ℕ = place_call draw socket now t in
    let steps : SocketMeta → Action World ℕ = λ x. find_target normalize none (some target) >>= λ y.
    or_throw (non_empty y) target_missing >>= λ z. place x z in
    let told : CallSession → Action World ℕ =
      λ c. modify (ring socket now target t m c) >> pure c.id in
    let caller : user_exists_or_null (some (name m)) w.database ≡ false =
      ap (λ o. user_exists (or_else o m.anonymous_id) w.database) anonymous ∙ unknown in
    >>=-ok steps (get_meta socket) w (get_meta-found socket w m found)
    ∙ (>>=-ok (place m) (or_throw (non_empty (some target)) target_missing) w
          (is_target target w real)
        ∙ >>=-err told
            (on_database (
              initiate_call draw now (some (name m)) (anonymous_name m) t
                (not (truthy_option m.user_id)) (origin m)))
            w
            (ap (λ r. (r.0, record w { database = r.1 }))
              (initiate_call-err draw now (some (name m)) (anonymous_name m) t _ (origin m)
                w.database caller)))
