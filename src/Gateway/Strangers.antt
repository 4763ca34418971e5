-- ===== src/Gateway/Strangers.antt =====
-- Two strangers who wait are called together: tryPairUsers of src/gateway/signaling.gateway.ts.
use video_calling.Base.{
  ℕ, ◌≡◌, inl, inr, refl, ap, ◌∙◌, arith, true, not, Option, none, some, List, [], ◌∷◌,
  if◌then◌else◌, ◌==◌, Bool-cases, truthy_option, truthy, or_else, is_some, find_row,
  find_row-append,
}
use video_calling.Database.{
  Database, CallSession, ok, Action, ◌>>◌, >>=-ok, modify, user_exists_or_null,
}
use video_calling.Matchmaking.{
  QueueEntry, TimedEntry, Store, is_fresh, pair_up, match_queue, try_match,
}
use video_calling.Matchmaking.History.{try_match-fresh}
use video_calling.Audit.Append.{log-KeepsRest}
use video_calling.Calls.{find_by_id}
use video_calling.Calls.Initiate.{new_call, initiate_call-ok}
use video_calling.Calls.Accept.{answered, accept_call-outcome}
use video_calling.Gateway.{World, store, with_store}
use video_calling.Gateway.Matching.{
  PairDraw, pair_type, nowhere, connect_pair, host_pair, admit_pair, call_pair, try_pair_users,
}
use video_calling.Gateway.Rooms.{AreOnline, AreConnected, connect_pair-AreConnected}

-- The users of the pair are stored, and the call's id is not taken.
pub record CanCall (draw : PairDraw) (a b : QueueEntry) (d : Database) : Type 0 where
  pub fresh : find_by_id draw.call.call d ≡ none
  pub host_known : user_exists_or_null a.user_id d ≡ true
  pub guest_known : truthy_option b.user_id ≡ true → user_exists_or_null b.user_id d ≡ true

-- The call of the pair, once it is answered.
abbrev pub pair_call : PairDraw → (now : ℕ) (a b : QueueEntry) → CallSession
pair_call draw now a b = answered now (new_call draw.call now a.user_id (pair_type a b) true)

known_of_users :
    (u : Option ℕ) (d e : Database)
    → e.users ≡ d.users
    → user_exists_or_null u e ≡ user_exists_or_null u d
known_of_users none d e h = refl
known_of_users (some u) d e h = ap (λ us. is_some (find_row (λ x. x.id == u) us)) h

pub CanCall-same :
    (draw : PairDraw) (a b : QueueEntry) (d e : Database)
    → e.users ≡ d.users
    → e.call_sessions ≡ d.call_sessions
    → CanCall draw a b d
    → CanCall draw a b e
CanCall-same draw a b d e users calls c = record {
  fresh = ap (find_row (λ x. x.id == draw.call.call)) calls ∙ c.fresh;
  host_known = known_of_users a.user_id d e users ∙ c.host_known;
  guest_known = λ t. known_of_users b.user_id d e users ∙ c.guest_known t;
}

-- The guest's id as it is given to `acceptCall`.
guest_found :
    (u : Option ℕ) (anonymous : ℕ) (d : Database)
    → (truthy_option u ≡ true → user_exists_or_null u d ≡ true)
    → user_exists_or_null
        (if not (truthy_option u)
          then none
          else some (if truthy_option u then or_else u 0 else anonymous))
        d
      ≡ true
guest_found none anonymous d h = refl
guest_found (some u) anonymous d h = elim (Bool-cases (truthy u)) [
  | inl t ↦ rw t (h t)
  | inr e ↦ rw e refl
]

host_pair-ok :
    (draw : PairDraw) (now : ℕ) (a b : QueueEntry) (w : World)
    → CanCall draw a b w.database
    → (d : Database) × (host_pair draw now a b w
        ≡ (ok (new_call draw.call now a.user_id (pair_type a b) true), record w { database = d }))
      × (find_by_id draw.call.call d ≡ some (new_call draw.call now a.user_id (pair_type a b) true))
      × (d.users ≡ w.database.users)
unfolding host_pair
host_pair-ok draw now a b w c =
    let done =
      initiate_call-ok draw.call now a.user_id
        (if truthy_option a.user_id then none else some a.anonymous_id) (pair_type a b) true nowhere
        w.database c.fresh c.host_known in
    (
      _,
      ap (λ r. (r.0, record w { database = r.1 })) done,
      (ap (find_row (λ x. x.id == draw.call.call)) (log-KeepsRest now _ _).call_sessions
            ∙ find_row-append (λ x. x.id == draw.call.call) w.database.call_sessions _ c.fresh)
          ∙ ground arith,
      (log-KeepsRest now _ _).users,
    )

admit_pair-ok :
    (draw : PairDraw) (now : ℕ) (a b : QueueEntry) (c : CallSession) (w : World)
    → find_by_id c.id w.database ≡ some c
    → (truthy_option b.user_id ≡ true → user_exists_or_null b.user_id w.database ≡ true)
    → (d : Database) × (admit_pair draw now a b c w
        ≡ (ok (answered now c), record w { database = d }))
      × (find_by_id c.id d ≡ some (answered now c))
unfolding admit_pair
admit_pair-ok draw now a b c w found known =
    let u = some (if truthy_option b.user_id then or_else b.user_id 0 else b.anonymous_id) in
    let anonymous = if truthy_option b.user_id then none else some b.anonymous_id in
    let (answer, stored, _) =
      ((accept_call-outcome draw.guest now c.id u anonymous (some (not (truthy_option b.user_id)))
            (pair_type a b) nowhere w.database).1
          c found).0
        (guest_found b.user_id b.anonymous_id w.database known) in
    (_, ap (λ r. (r, (admit_pair draw now a b c w).1)) answer, stored)

-- What the connection of a pair leaves in the world.
abbrev pub IsAnswered : PairDraw → (now : ℕ) (a b : QueueEntry) → World → World → Type 0
IsAnswered draw now a b w w' =
    (find_by_id draw.call.call w'.database ≡ some (pair_call draw now a b))
    × AreConnected draw.call.call a b w w'

call_pair-IsAnswered :
    (draw : PairDraw) (now : ℕ) (a b : QueueEntry) (w : World)
    → CanCall draw a b w.database
    → AreOnline a b w
    → (w' : World) × (call_pair draw now (some (a, b)) w ≡ (ok tt, w'))
      × IsAnswered draw now a b w w'
unfolding call_pair
call_pair-IsAnswered draw now a b w can are_online =
    let c : CallSession = new_call draw.call now a.user_id (pair_type a b) true in
    let (d, hosted, found, users) = host_pair-ok draw now a b w can in
    let w1 : World = record w { database = d } in
    let (e, admitted, stored) =
      admit_pair-ok draw now a b c w1 found
        (λ t. known_of_users b.user_id w.database d users ∙ can.guest_known t) in
    let w2 : World = record w { database = e } in
    let connect : Action World (Unit {0}) = modify (connect_pair draw.call.call a b) in
    let rest : CallSession → Action World (Unit {0}) =
      λ session. admit_pair draw now a b session >> modify (connect_pair session.id a b) in
    let (connected, same) = connect_pair-AreConnected draw.call.call a b w2 are_online in
    (
      connect_pair draw.call.call a b w2,
      >>=-ok rest (host_pair draw now a b) w hosted
          ∙ >>=-ok (λ _. connect) (admit_pair draw now a b c) w1 admitted,
      (
        ap (find_by_id draw.call.call) same ∙ stored,
        record {
          first_in = connected.first_in;
          second_in = connected.second_in;
          told = connected.told;
        },
      ),
    )

match_queue-keeps :
    (now : ℕ) (queue : List TimedEntry) (s : Store)
    → ((match_queue now queue s).1.database.users ≡ s.database.users)
      × ((match_queue now queue s).1.database.call_sessions ≡ s.database.call_sessions)
unfolding match_queue pair_up
match_queue-keeps now [] s = (refl, refl)
match_queue-keeps now (a ∷ []) s = (refl, refl)
match_queue-keeps now (a ∷ b ∷ rest) s = elim (Bool-cases (is_fresh now a)) [
  | inl fa ↦ elim (Bool-cases (is_fresh now b)) [
    | inl fb ↦ rw (fa, fb) ((log-KeepsRest now _ _).users, (log-KeepsRest now _ _).call_sessions)
    | inr sb ↦ rw (fa, sb) (refl, refl)
  ]
  | inr sa ↦ ground arith
]

try_match-keeps :
    (now : ℕ) (s : Store)
    → ((try_match now s).1.database.users ≡ s.database.users)
      × ((try_match now s).1.database.call_sessions ≡ s.database.call_sessions)
unfolding try_match
try_match-keeps now s = match_queue-keeps now s.redis.queue s

-- When the two who have waited longest are fresh and connected, their users are stored and the drawn
-- id of the call is new, pairing succeeds: the call is active from then, both sockets are in its room, and
-- each is told of the other, the one that waited longer to make the offer.
pub try_pair_users-IsAnswered :
    (draw : PairDraw) (now : ℕ) (a b : TimedEntry) (rest : List TimedEntry) (w : World)
    → w.redis.queue ≡ a ∷ b ∷ rest
    → is_fresh now a ≡ true
    → is_fresh now b ≡ true
    → CanCall draw a.entry b.entry w.database
    → AreOnline a.entry b.entry w
    → (w' : World) × (try_pair_users draw now w ≡ (ok tt, w'))
      × IsAnswered draw now a.entry b.entry w w'
unfolding try_pair_users
try_pair_users-IsAnswered draw now a b rest w queue fa fb can are_online =
    let found = try_match-fresh now a b rest (store w) queue fa fb in
    let (users, calls) = try_match-keeps now (store w) in
    let w1 : World = with_store w (try_match now (store w)).1 in
    let (w', done, answered_) =
      call_pair-IsAnswered draw now a.entry b.entry w1
        (CanCall-same draw a.entry b.entry w.database w1.database users calls can) are_online in
    (
      w',
      ap (λ p. call_pair draw now p w1) found ∙ done,
      (
        answered_.0,
        record {
          first_in = answered_.1.first_in;
          second_in = answered_.1.second_in;
          told = answered_.1.told;
        },
      ),
    )
