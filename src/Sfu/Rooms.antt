-- ===== src/Sfu/Rooms.antt =====
-- The rooms: who owns a transport, and when a room goes.
use video_calling.Base.{
  ℕ, zero, suc, ◌+◌, ◌%◌, ◌<◌, ◌≡◌, ◌≢◌, refl, sym, ◌∙◌, subst, Bool, true, false, not, ◌||◌,
  Option, none, some, List, [], ◌∷◌, ◌++◌, arith, ◌==◌, lookup, lookup-insert, lookup-erase,
  delete_where, exists_where, length, Bool-cases, inl, inr, All, All-append, ==-self,
}
use native.Mathlib.Nat.{mod-lt}
use video_calling.Database.{Action, err, media_unavailable}
use video_calling.Sfu.{
  Transport, Router, Room, Sfu, put_room, add_peer, add_transport, same_transport, create_room,
  next_worker, with_router, new_room, create_web_rtc_transport, find_transport, on_room,
  on_transport, produce, consume, of_peer, without_peer, drop_peer, remove_participant, get_elem?,
  is_available,
}

abbrev pub is_in : List ℕ → ℕ → Bool
is_in ps p = exists_where (λ q. q == p) ps

-- Every transport of the room is of one of its participants.
abbrev pub HasOwners : Room → Type 0
HasOwners room = All (λ t. is_in room.participants t.peer ≡ true) room.transports

abbrev pub AllOwned : Sfu → Type 0
AllOwned s = (k : ℕ) (room : Room) → lookup k s.rooms ≡ some room → HasOwners room

put_room-AllOwned :
    (k : ℕ) (room : Room) (s : Sfu) → HasOwners room → AllOwned s → AllOwned (put_room k room s)
put_room-AllOwned k room s h v j r e = elim (Bool-cases (k == j)) [
  | inl same ↦
      let at : ◌≡◌ {A = Option Room} (some room) (some r) =
        sym (lookup-insert k j room s.rooms ∙ rw same refl) ∙ e in
      let eq : room ≡ r = cc in subst HasOwners eq h
  | inr other ↦ v j r (sym (lookup-insert k j room s.rooms ∙ rw other refl) ∙ e)
]

is_in-add : (p x : ℕ) (ps : List ℕ) → is_in ps x ≡ true → is_in (ps ++ p ∷ []) x ≡ true
is_in-add p x [] h = absurd (cc)
is_in-add p x (y ∷ ps) h = ground (arith, is_in-add p x ps)

is_in-last : (p : ℕ) (ps : List ℕ) → is_in (ps ++ p ∷ []) p ≡ true
is_in-last p [] = ground arith
is_in-last p (y ∷ ps) = ground (arith, is_in-last p ps)

add_peer-old : (p x : ℕ) (ps : List ℕ) → is_in ps x ≡ true → is_in (add_peer p ps) x ≡ true
add_peer-old p x ps h = elim (Bool-cases (is_in ps p)) [
  | inl old ↦ rw old h
  | inr new ↦ rw new (is_in-add p x ps h)
]

add_peer-new : (p : ℕ) (ps : List ℕ) → is_in (add_peer p ps) p ≡ true
add_peer-new p ps = elim (Bool-cases (is_in ps p)) [
  | inl old ↦ rw old old
  | inr new ↦ rw new (is_in-last p ps)
]

owners-add :
    (p : ℕ) (ps : List ℕ) (ts : List Transport)
    → All (λ t. is_in ps t.peer ≡ true) ts
    → All (λ t. is_in (add_peer p ps) t.peer ≡ true) ts
owners-add p ps [] h = tt
owners-add p ps (t ∷ ts) h = (add_peer-old p t.peer ps h.0, owners-add p ps ts h.1)

add_transport-HasOwners :
    (t : Transport) (room : Room)
    → HasOwners room
    → HasOwners (record room {
      transports = add_transport t room.transports;
      participants = add_peer t.peer room.participants;
    })
add_transport-HasOwners t room h =
    let old = owners-add t.peer room.participants room.transports h in
    elim (Bool-cases (exists_where (same_transport t.peer t.id) room.transports)) [
      | inl there ↦ rw there old
      | inr new ↦
          rw new
            (All-append _ room.transports (t ∷ []) old (add_peer-new t.peer room.participants, tt))
    ]

is_in-delete :
    (p x : ℕ) (ps : List ℕ)
    → (x == p) ≡ false
    → is_in ps x ≡ true
    → is_in (delete_where (λ q. q == p) ps) x ≡ true
is_in-delete p x [] other h = absurd (cc)
is_in-delete p x (y ∷ ps) other h = ground (arith, is_in-delete p x ps)

without_peer-owners :
    (p : ℕ) (ps : List ℕ) (ts : List Transport)
    → All (λ t. is_in ps t.peer ≡ true) ts
    → All (λ t. is_in (delete_where (λ q. q == p) ps) t.peer ≡ true) (delete_where (of_peer p) ts)
without_peer-owners p ps [] h = tt
without_peer-owners p ps (t ∷ ts) h = elim (Bool-cases (t.peer == p)) [
  | inl gone ↦ rw gone (without_peer-owners p ps ts h.1)
  | inr stays ↦ rw stays (is_in-delete p t.peer ps stays h.0, without_peer-owners p ps ts h.1)
]

drop_peer-AllOwned :
    (k p : ℕ) (o : Option Room) (s : Sfu)
    → lookup k s.rooms ≡ o
    → AllOwned s
    → AllOwned (drop_peer k p o s)
drop_peer-AllOwned k p none s e v = v
drop_peer-AllOwned k p (some room) s e v =
    elim (Bool-cases (length (without_peer p room).participants == 0)) [
      | inl empty_room ↦
          rw empty_room (λ j. λ r. λ found. v j r (ground (arith, lookup-erase k j s.rooms, found)))
      | inr still ↦ rw still (
          put_room-AllOwned k (without_peer p room) s
            (without_peer-owners p room.participants room.transports (v k room e)) v)
    ]

-- An operation on a room, and on a transport, keeps the owners if what it does there does.
on_room-AllOwned :
    {A : Type 0} (k : ℕ) (f : Room → Action Sfu A) (o : Option Room) (s : Sfu)
    → lookup k s.rooms ≡ o
    → ((room : Room) → HasOwners room → AllOwned (f room s).1)
    → AllOwned s
    → AllOwned (on_room o f s).1
on_room-AllOwned k f none s e h v = v
on_room-AllOwned k f (some room) s e h v = h room (v k room e)

on_transport-AllOwned :
    {A : Type 0} (f : Transport → Action Sfu A) (o : Option Transport) (s : Sfu)
    → ((t : Transport) → AllOwned (f t s).1)
    → AllOwned s
    → AllOwned (on_transport o f s).1
on_transport-AllOwned f none s h v = v
on_transport-AllOwned f (some t) s h v = h t

create_web_rtc_transport-AllOwned :
    (t k p : ℕ) (s : Sfu) → AllOwned s → AllOwned (create_web_rtc_transport t k p s).1
unfolding create_web_rtc_transport
create_web_rtc_transport-AllOwned t k p s v =
    on_room-AllOwned {A = ℕ} k _ (lookup k s.rooms) s refl
      (λ room. λ h.
        put_room-AllOwned k _ s (add_transport-HasOwners (record { peer = p; id = t }) room h) v)
      v

produce-AllOwned : (x k t : ℕ) (s : Sfu) → AllOwned s → AllOwned (produce x k t s).1
unfolding produce
produce-AllOwned x k t s v =
    on_room-AllOwned {A = ℕ} k _ (lookup k s.rooms) s refl
      (λ room. λ h.
        on_transport-AllOwned {A = ℕ} _ (find_transport t room) s (λ y. put_room-AllOwned k _ s h v)
          v)
      v

consume-AllOwned :
    (can : Router → ℕ → ℕ → Bool) (x k y c t : ℕ) (s : Sfu)
    → AllOwned s
    → AllOwned (consume can x k y c t s).1
unfolding consume
consume-AllOwned can x k y c t s v =
    on_room-AllOwned {A = ℕ} k _ (lookup k s.rooms) s refl
      (λ room. λ h. elim (Bool-cases (can room.router y c)) [
        | inl fits ↦ rw fits (
            on_transport-AllOwned {A = ℕ} _ (find_transport t room) s
              (λ z. put_room-AllOwned k _ s h v) v)
        | inr unfit ↦ rw unfit v
      ])
      v

get_elem?-in_bounds : (ws : List ℕ) (i : ℕ) → i < length ws → (w : ℕ) × (get_elem? ws i ≡ some w)
get_elem?-in_bounds [] i h = absurd (omega (arith, h))
get_elem?-in_bounds (w ∷ ws) zero h = (w, refl)
get_elem?-in_bounds (w ∷ ws) (suc i) h = get_elem?-in_bounds ws i (omega arith)

with_router-AllOwned :
    (x k : ℕ) (o : Option ℕ) (s : Sfu) → AllOwned s → AllOwned (with_router x k (o, s)).1
with_router-AllOwned x k none s v = v
with_router-AllOwned x k (some w) s v = put_room-AllOwned k _ s tt v

create_room-AllOwned : (x k : ℕ) (s : Sfu) → AllOwned s → AllOwned (create_room x k s).1
unfolding create_room next_worker
create_room-AllOwned x k s v = elim (Bool-cases (not s.loaded || length s.workers == 0)) [
  | inl unavailable ↦ rw unavailable v
  | inr available ↦ elim (Bool-cases (length s.workers == 0)) [
    | inl nobody ↦ rw (available, nobody) v
    | inr someone ↦
        rw (available, someone)
          (with_router-AllOwned x k (get_elem? s.workers (s.worker_index % length s.workers))
            (record s { worker_index = s.worker_index + 1 }) v)
  ]
]

remove_participant-AllOwned : (k p : ℕ) (s : Sfu) → AllOwned s → AllOwned (remove_participant k p s)
unfolding remove_participant
remove_participant-AllOwned k p s v = drop_peer-AllOwned k p (lookup k s.rooms) s refl v

-- Creating a room fails, and changes nothing, exactly where group calls are not available; else the
-- room is there and empty, on the worker whose turn it is, the turn passes on by one, and the other
-- rooms are as they were.
pub create_room-outcome :
    (x k : ℕ) (s : Sfu)
    → ((is_available s ≡ false) → create_room x k s ≡ (err media_unavailable, s))
      × ((is_available s ≡ true)
          → (w : ℕ) × (get_elem? s.workers (s.worker_index % length s.workers) ≡ some w)
            × (lookup k (create_room x k s).1.rooms ≡ some (new_room x w))
            × ((create_room x k s).1.worker_index ≡ s.worker_index + 1)
            × ((j : ℕ) → j ≢ k → lookup j (create_room x k s).1.rooms ≡ lookup j s.rooms))
unfolding create_room is_available next_worker
create_room-outcome x k s = (
  λ unavailable. elim (Bool-cases (not s.loaded || length s.workers == 0)) [
    | inl refused ↦ rw refused refl
    | inr granted ↦ absurd (ground arith)
  ],
  λ available.
      let some_workers : (length s.workers == 0) ≡ false = ground arith in
      let granted : (not s.loaded || length s.workers == 0) ≡ false = ground arith in
      let (w, turn) =
        get_elem?-in_bounds s.workers (s.worker_index % length s.workers)
          (mod-lt s.worker_index (ground arith)) in
      (
        w,
        turn,
        rw (granted, some_workers, turn) (lookup-insert k k _ s.rooms ∙ rw (==-self k) refl),
        rw (granted, some_workers, turn) refl,
        λ j. λ other.
            rw (granted, some_workers, turn)
              (ground (arith, lookup-insert k j (new_room x w) s.rooms)),
      ),
)

-- One operation of the server that changes the rooms.
pub data SfuStep : Sfu → Sfu → Type 0 where
  creates : (x k : ℕ) (s : Sfu) → SfuStep s (create_room x k s).1
  transports : (t k p : ℕ) (s : Sfu) → SfuStep s (create_web_rtc_transport t k p s).1
  produces : (x k t : ℕ) (s : Sfu) → SfuStep s (produce x k t s).1
  consumes :
      (can : Router → ℕ → ℕ → Bool) (x k y c t : ℕ) (s : Sfu)
      → SfuStep s (consume can x k y c t s).1
  removes : (k p : ℕ) (s : Sfu) → SfuStep s (remove_participant k p s)

-- Whatever the server does keeps this: every transport of a room is of one of the room's
-- participants.
pub step-AllOwned : (s t : Sfu) → SfuStep s t → AllOwned s → AllOwned t
step-AllOwned _ _ (creates x k s) v = create_room-AllOwned x k s v
step-AllOwned _ _ (transports t k p s) v = create_web_rtc_transport-AllOwned t k p s v
step-AllOwned _ _ (produces x k t s) v = produce-AllOwned x k t s v
step-AllOwned _ _ (consumes can x k y c t s) v = consume-AllOwned can x k y c t s v
step-AllOwned _ _ (removes k p s) v = remove_participant-AllOwned k p s v
