-- ===== src/Gateway/Rooms.antt =====
-- The rooms of Socket.IO, and what connecting a pair of strangers leaves in them
-- (src/gateway/signaling.gateway.ts, tryPairUsers).
use video_calling.Base.{
  ℕ, subst, sym, is_some, lookup-insert, ◌≡◌, inl, inr, refl, ap, ◌∙◌, arith, Bool, true, false,
  some, List, [], ◌∷◌, ◌++◌, lookup, exists_where, Bool-cases, Option-cases,
}
use video_calling.Matchmaking.{QueueEntry}
use video_calling.Gateway.{
  SocketMeta, World, Event, match_found, join_room, in_pair, set_meta, set_call,
}
use video_calling.Gateway.Matching.{pair_type, both_registered, connect_pair, is_online, found_for}

-- What `set_meta` leaves as it was.
set_meta-rest :
    (s : ℕ) (f : SocketMeta → SocketMeta) (w : World)
    → ((set_meta s f w).rooms ≡ w.rooms)
      × ((set_meta s f w).emitted ≡ w.emitted)
      × ((set_meta s f w).database ≡ w.database)
set_meta-rest s f w = elim (Option-cases (lookup s w.sockets)) [
  | inl e ↦ rw (set_meta, e) (refl, refl, refl)
  | inr (m, e) ↦ rw (set_meta, e) (refl, refl, refl)
]

-- A socket stays connected when the metadata of one is changed.
set_meta-online :
    (s k : ℕ) (f : SocketMeta → SocketMeta) (w : World)
    → is_online k w ≡ true
    → is_online k (set_meta s f w) ≡ true
set_meta-online s k f w h = elim (Option-cases (lookup s w.sockets)) [
  | inl e ↦ rw (set_meta, e) h
  | inr (m, e) ↦ rw (set_meta, e) (rw (lookup-insert s k (f m) w.sockets) (ground arith))
]

abbrev pub is_in_room : (room socket : ℕ) → World → Bool
is_in_room room socket w = exists_where (in_pair room socket) w.rooms

exists-push :
    (room socket : ℕ) (rooms : List (ℕ × ℕ))
    → exists_where (in_pair room socket) (rooms ++ (room, socket) ∷ []) ≡ true
exists-push room socket [] = ground arith
exists-push room socket (p ∷ rooms) = ground (arith, exists-push room socket rooms)

exists-more :
    (room socket : ℕ) (rooms more : List (ℕ × ℕ))
    → exists_where (in_pair room socket) rooms ≡ true
    → exists_where (in_pair room socket) (rooms ++ more) ≡ true
exists-more room socket [] more h = absurd (cc)
exists-more room socket (p ∷ rooms) more h = ground (arith, exists-more room socket rooms more)

join_room-in :
    (room socket : ℕ) (w : World) → is_in_room room socket (join_room room socket w) ≡ true
join_room-in room socket w = elim (Bool-cases (is_in_room room socket w)) [
  | inl there ↦ rw there there
  | inr new ↦ rw new (exists-push room socket w.rooms)
]

join_room-keeps :
    (room socket other : ℕ) (w : World)
    → is_in_room room socket w ≡ true
    → is_in_room room socket (join_room room other w) ≡ true
join_room-keeps room socket other w h = elim (Bool-cases (is_in_room room other w)) [
  | inl there ↦ rw there h
  | inr new ↦ rw new (exists-more room socket w.rooms ((room, other) ∷ []) h)
]

join_room-rest :
    (room socket : ℕ) (w : World)
    → ((join_room room socket w).emitted ≡ w.emitted)
      × ((join_room room socket w).database ≡ w.database)
      × ((join_room room socket w).sockets ≡ w.sockets)
join_room-rest room socket w = elim (Bool-cases (is_in_room room socket w)) [
  | inl there ↦ rw there (refl, refl, refl)
  | inr new ↦ rw new (refl, refl, refl)
]

-- What each of the two is told: the partner, and who makes the offer.
abbrev pub notice : (call_id : ℕ) (is_initiator : Bool) (a b partner : QueueEntry) → Event
notice call_id is_initiator a b partner =
    match_found call_id (pair_type a b) is_initiator (both_registered a b) partner.user_id

-- The two sockets are in the room of the call, and each was told of the other.
pub record AreConnected (call_id : ℕ) (a b : QueueEntry) (w w' : World) : Type 0 where
  pub first_in : is_in_room call_id a.socket_id w' ≡ true
  pub second_in : is_in_room call_id b.socket_id w' ≡ true
  pub told :
      w'.emitted
      ≡ (w.emitted ++ (a.socket_id, notice call_id true a b b) ∷ [])
        ++ (b.socket_id, notice call_id false a b a) ∷ []

-- Both sockets are connected.
abbrev pub AreOnline : (a b : QueueEntry) → World → Type 0
AreOnline a b w = (is_online a.socket_id w ≡ true) × (is_online b.socket_id w ≡ true)

-- What connecting does where both sockets are connected.
abbrev connected : (call_id : ℕ) (a b : QueueEntry) → World → World
connected call_id a b w =
    let joined = join_room call_id b.socket_id (join_room call_id a.socket_id w) in
    let marked =
      set_meta b.socket_id (set_call (some call_id))
        (set_meta a.socket_id (set_call (some call_id)) joined) in
    found_for call_id false a b a b.socket_id (found_for call_id true a b b a.socket_id marked)

connect_pair-connected :
    (call_id : ℕ) (a b : QueueEntry) (w : World)
    → AreOnline a b w
    → connect_pair call_id a b w ≡ connected call_id a b w
unfolding connect_pair
connect_pair-connected call_id a b w (a_on, b_on) =
    let mark = set_call (some call_id) in
    let one = join_room call_id a.socket_id w in
    let joined = join_room call_id b.socket_id one in
    let after : (k : ℕ) → is_online k w ≡ true → is_online k joined ≡ true = λ k. λ h.
      ap (λ ss. is_some (lookup k ss))
        ((join_room-rest call_id b.socket_id one).2 ∙ (join_room-rest call_id a.socket_id w).2)
      ∙ h in
    let marked : (k : ℕ)
        → is_online k w ≡ true
        → is_online k (set_meta b.socket_id mark (set_meta a.socket_id mark joined)) ≡ true =
      λ k. λ h.
        set_meta-online b.socket_id k mark (set_meta a.socket_id mark joined)
          (set_meta-online a.socket_id k mark joined (after k h)) in
    let b_one : is_online b.socket_id one ≡ true =
      ap (λ ss. is_some (lookup b.socket_id ss)) (join_room-rest call_id a.socket_id w).2 ∙ b_on in
    rw (a_on, b_one, marked a.socket_id a_on, marked b.socket_id b_on) refl

connected-AreConnected :
    (call_id : ℕ) (a b : QueueEntry) (w : World)
    → AreConnected call_id a b w (connected call_id a b w)
      × ((connected call_id a b w).database ≡ w.database)
connected-AreConnected call_id a b w =
    let one = join_room call_id a.socket_id w in
    let joined = join_room call_id b.socket_id one in
    let mark = set_call (some call_id) in
    let (rooms, emitted, database) = set_meta-rest a.socket_id mark joined in
    let (rooms', emitted', database') =
      set_meta-rest b.socket_id mark (set_meta a.socket_id mark joined) in
    let (emitted_a, database_a, _) = join_room-rest call_id a.socket_id w in
    let (emitted_b, database_b, _) = join_room-rest call_id b.socket_id one in
    (
      record {
        first_in =
            ap (exists_where (in_pair call_id a.socket_id)) (rooms' ∙ rooms)
            ∙ join_room-keeps call_id a.socket_id b.socket_id one
                (join_room-in call_id a.socket_id w);
        second_in =
            ap (exists_where (in_pair call_id b.socket_id)) (rooms' ∙ rooms)
            ∙ join_room-in call_id b.socket_id one;
        told =
            ap
              (λ xs.
                (xs ++ (a.socket_id, notice call_id true a b b) ∷ [])
                ++ (b.socket_id, notice call_id false a b a) ∷ [])
              (emitted' ∙ (emitted ∙ (emitted_b ∙ emitted_a)));
      },
      database' ∙ (database ∙ (database_b ∙ database_a)),
    )

pub connect_pair-AreConnected :
    (call_id : ℕ) (a b : QueueEntry) (w : World)
    → AreOnline a b w
    → AreConnected call_id a b w (connect_pair call_id a b w)
      × ((connect_pair call_id a b w).database ≡ w.database)
connect_pair-AreConnected call_id a b w are_online =
    subst (λ v. AreConnected call_id a b w v × (v.database ≡ w.database))
      (sym (connect_pair-connected call_id a b w are_online)) (connected-AreConnected call_id a b w)
