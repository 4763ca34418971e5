-- ===== src/Gateway/Answering.antt =====
-- Who may answer a call, and what becomes of its timer.
use video_calling.Base.{
  ℕ, ◌≡◌, ◌≢◌, refl, sym, ◌∙◌, ap, subst, Bool, true, false, Option, none, some, List, [], ◌∷◌,
  ◌++◌, map, arith, lookup, lookup-erase, ==-self, non_empty, Bool-cases, inl, inr,
}
use mathlib.Core.List.{append_assoc, append-nil}
use video_calling.Database.{
  CallType, CallSession, Action, Error, ok, err, or_throw, throw_if, modify, ◌>>=◌, ◌>>◌, >>=-ok,
  >>=-err, >>=-eq-ok, socket_not_initialised, authentication_required, not_the_recipient,
}
use video_calling.Calls.{accept_call}
use video_calling.Gateway.{
  SocketMeta, World, Event, send_all, get_meta, on_database, set_meta, origin, cancel_timer,
  forget_target, join_room, set_call, members, call_accepted,
}
use video_calling.Gateway.Calling.{require_user, is_other_target, answer, accept_as, on_call_accept}

-- Sending only adds to what was sent.
pub send_all-emitted :
    (ss : List ℕ) (e : Event) (w : World)
    → send_all ss e w ≡ record w { emitted = w.emitted ++ map (λ s. (s, e)) ss }
send_all-emitted [] e w = ap (λ l. record w { emitted = l }) (sym (append-nil w.emitted))
send_all-emitted (s ∷ ss) e w =
    send_all-emitted ss e (record w { emitted = w.emitted ++ (s, e) ∷ [] })
    ∙ ap (λ l. record w { emitted = l })
        (append_assoc w.emitted ((s, e) ∷ []) (map (λ x. (x, e)) ss))

pub get_meta-found :
    (socket : ℕ) (w : World) (m : SocketMeta)
    → lookup socket w.sockets ≡ some m
    → get_meta socket w ≡ (ok m, w)
unfolding get_meta
get_meta-found socket w m found = rw found refl

pub get_meta-missing :
    (socket : ℕ) (w : World)
    → lookup socket w.sockets ≡ none
    → get_meta socket w ≡ (err socket_not_initialised, w)
unfolding get_meta
get_meta-missing socket w absent = rw absent refl

require_user-ok :
    (m : SocketMeta) (w : World) (u : ℕ)
    → non_empty m.user_id ≡ some u
    → require_user m w ≡ (ok u, w)
require_user-ok m w u e = rw e refl

require_user-err :
    (m : SocketMeta) (w : World)
    → non_empty m.user_id ≡ none
    → require_user m w ≡ (err authentication_required, w)
require_user-err m w e = rw e refl

accept_as-other :
    (p socket now k : ℕ) (t : CallType) (m : SocketMeta) (u : ℕ) (w : World)
    → is_other_target (lookup k w.pending_call_targets) u ≡ true
    → accept_as p socket now k t m u w ≡ (err not_the_recipient, w)
unfolding accept_as
accept_as-other p socket now k t m u w other = rw other refl

-- A call is not answered, and nothing changes, from a socket that is not connected, for an anonymous
-- one, and for a user whom the call was not for while its target is known.
pub on_call_accept-refused :
    (p socket now k : ℕ) (t : CallType) (w : World)
    → ((lookup socket w.sockets ≡ none)
        → on_call_accept p socket now k t w ≡ (err socket_not_initialised, w))
      × ((m : SocketMeta)
          → lookup socket w.sockets ≡ some m
          → ((non_empty m.user_id ≡ none)
              → on_call_accept p socket now k t w ≡ (err authentication_required, w))
            × ((u target : ℕ)
                → non_empty m.user_id ≡ some u
                → lookup k w.pending_call_targets ≡ some target
                → target ≢ 0
                → target ≢ u
                → on_call_accept p socket now k t w ≡ (err not_the_recipient, w)))
unfolding on_call_accept
on_call_accept-refused p socket now k t w =
    let steps : SocketMeta → Action World (Unit {0}) =
      λ m. require_user m >>= accept_as p socket now k t m in
    (
      λ absent. >>=-err steps (get_meta socket) w (get_meta-missing socket w absent),
      λ m. λ found.
          let start = >>=-ok steps (get_meta socket) w (get_meta-found socket w m found) in
          (
            λ anonymous.
                start
                ∙ >>=-err (accept_as p socket now k t m) (require_user m) w
                    (require_user-err m w anonymous),
            λ u. λ target. λ user. λ tracked. λ real. λ other.
                start
                ∙ (>>=-ok (accept_as p socket now k t m) (require_user m) w
                      (require_user-ok m w u user)
                    ∙ accept_as-other p socket now k t m u w (rw tracked (ground arith))),
          ),
    )

cleared-sent :
    (ss : List ℕ) (e : Event) (k : ℕ) (y : World)
    → (lookup k (send_all ss e (forget_target k (cancel_timer k y))).missed_call_timers ≡ none)
      × (lookup k (send_all ss e (forget_target k (cancel_timer k y))).pending_call_targets ≡ none)
cleared-sent ss e k y = (
  ap (λ x. lookup k x.missed_call_timers)
        (send_all-emitted ss e (forget_target k (cancel_timer k y)))
      ∙ (lookup-erase k k y.missed_call_timers ∙ rw (==-self k) refl),
  ap (λ x. lookup k x.pending_call_targets)
        (send_all-emitted ss e (forget_target k (cancel_timer k y)))
      ∙ (lookup-erase k k y.pending_call_targets ∙ rw (==-self k) refl),
)

answer-cleared :
    (socket u k : ℕ) (c : CallSession) (w : World)
    → (lookup k (answer socket u k c w).missed_call_timers ≡ none)
      × (lookup k (answer socket u k c w).pending_call_targets ≡ none)
unfolding answer
answer-cleared socket u k c w =
    let y : World = join_room k socket (set_meta socket (set_call (some k)) w) in
    cleared-sent (members k y.rooms) (call_accepted k u c.initiator_id) k y

or_throw-eq-ok :
    {A : Type 0} (o : Option A) (e : Error) (w v : World) (a : A)
    → or_throw o e w ≡ (ok a, v)
    → (o ≡ some a) × (w ≡ v)
or_throw-eq-ok none e w v a h = absurd (cc)
or_throw-eq-ok (some b) e w v a h = let r : ok b ≡ ok a = ap (λ x. x.0) h in (cc, ap (λ x. x.1) h)

get_meta-eq-ok :
    (socket : ℕ) (w v : World) (m : SocketMeta)
    → get_meta socket w ≡ (ok m, v)
    → (lookup socket w.sockets ≡ some m) × (w ≡ v)
unfolding get_meta
get_meta-eq-ok socket w v m h =
    or_throw-eq-ok (lookup socket w.sockets) socket_not_initialised w v m h

accept_as-eq-ok :
    (p socket now k : ℕ) (t : CallType) (m : SocketMeta) (u : ℕ) (w v : World)
    → accept_as p socket now k t m u w ≡ (ok tt, v)
    → (is_other_target (lookup k w.pending_call_targets) u ≡ false)
      × (lookup k v.missed_call_timers ≡ none)
      × (lookup k v.pending_call_targets ≡ none)
unfolding accept_as
accept_as-eq-ok p socket now k t m u w v h =
    elim (Bool-cases (is_other_target (lookup k w.pending_call_targets) u)) [
      | inl other ↦ absurd (let e = sym (accept_as-other p socket now k t m u w other) ∙ h in cc)
      | inr own ↦
          let told : CallSession → Action World (Unit {0}) = λ c. modify (answer socket u k c) in
          let other : Bool = is_other_target (lookup k w.pending_call_targets) u in
          let (c, x, run, last) =
            >>=-eq-ok told
              (throw_if other not_the_recipient
                >> on_database (accept_call p now k (some u) none none t (origin m)))
              w h in
          let e : answer socket u k c x ≡ v = ap (λ r. r.1) last in
          (
            own,
            subst (λ y. lookup k y.missed_call_timers ≡ none) e (answer-cleared socket u k c x).0,
            subst (λ y. lookup k y.pending_call_targets ≡ none) e (answer-cleared socket u k c x).1,
          )
    ]

-- When a call is answered, the socket is of a registered user, who is the call's target if the
-- call has one; afterwards the call has neither a timer nor a target.
pub on_call_accept-answered :
    (p socket now k : ℕ) (t : CallType) (w v : World)
    → on_call_accept p socket now k t w ≡ (ok tt, v)
    → (m : SocketMeta) × (u : ℕ) × (lookup socket w.sockets ≡ some m)
      × (non_empty m.user_id ≡ some u)
      × (is_other_target (lookup k w.pending_call_targets) u ≡ false)
      × (lookup k v.missed_call_timers ≡ none)
      × (lookup k v.pending_call_targets ≡ none)
unfolding on_call_accept
on_call_accept-answered p socket now k t w v h =
    let steps : SocketMeta → Action World (Unit {0}) =
      λ m. require_user m >>= accept_as p socket now k t m in
    let (m, x, read, rest) = >>=-eq-ok steps (get_meta socket) w h in
    let (found, same) = get_meta-eq-ok socket w x m read in
    let (u, y, user, last) = >>=-eq-ok (accept_as p socket now k t m) (require_user m) x rest in
    let (known, again) = or_throw-eq-ok (non_empty m.user_id) authentication_required x y u user in
    let (own, timer, target) = accept_as-eq-ok p socket now k t m u y v last in
    (
      m,
      u,
      found,
      known,
      subst (λ z. is_other_target (lookup k z.pending_call_targets) u ≡ false) (sym (same ∙ again))
          own,
      timer,
      target,
    )
