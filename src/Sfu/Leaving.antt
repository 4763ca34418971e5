-- ===== src/Sfu/Leaving.antt =====
-- A peer that leaves a room.
use video_calling.Base.{
  ℕ, ◌<◌, ◌≡◌, ◌≢◌, refl, true, false, Option, none, some, List, [], ◌∷◌, arith, ◌==◌, lookup,
  lookup-insert, lookup-erase, find_row, delete_where, select_where, length, Bool-cases, inl, inr,
  ==-self,
}
use video_calling.Sfu.{Transport, Room, Sfu, of_peer, without_peer, drop_peer, remove_participant}
use video_calling.Sfu.Rooms.{is_in}

absent-in : (p : ℕ) (ps : List ℕ) → is_in (delete_where (λ q. q == p) ps) p ≡ false
absent-in p [] = refl
absent-in p (q ∷ ps) = ground (arith, absent-in p ps)

others-in : (p q : ℕ) (ps : List ℕ) → q ≢ p → is_in (delete_where (λ x. x == p) ps) q ≡ is_in ps q
others-in p q [] other = refl
others-in p q (x ∷ ps) other = ground (arith, others-in p q ps)

others-transports :
    (p q : ℕ) (ts : List Transport)
    → q ≢ p
    → select_where (of_peer q) (delete_where (of_peer p) ts) ≡ select_where (of_peer q) ts
others-transports p q [] other = refl
others-transports p q (t ∷ ts) other = ground (arith, others-transports p q ts)

-- Where nobody is left, everybody was the peer.
nobody-in :
    (p q : ℕ) (ps : List ℕ)
    → (length (delete_where (λ x. x == p) ps) == 0) ≡ true
    → is_in ps q ≡ true
    → q ≡ p
nobody-in p q [] h e = absurd (cc)
nobody-in p q (x ∷ ps) h e = elim (Bool-cases (x == p)) [
  | inl same ↦ ground (arith, nobody-in p q ps)
  | inr other ↦ absurd (ground arith)
]

no_transport :
    (p : ℕ) (ts : List Transport) → find_row (of_peer p) (delete_where (of_peer p) ts) ≡ none
no_transport p [] = refl
no_transport p (t ∷ ts) = ground (arith, no_transport p ts)

-- The room before and after the peer has left it: it is gone if nobody else was in it; else the peer
-- is neither among its participants nor has a transport in it, the others are in it still with their
-- transports, and the maps of producers and consumers are as they were, the peer's own among them.
abbrev pub HasLeft : ℕ → (before after : Option Room) → Type 0
HasLeft p none after = after ≡ none
HasLeft p (some old) none = (q : ℕ) → is_in old.participants q ≡ true → q ≡ p
HasLeft p (some old) (some room) =
    (is_in room.participants p ≡ false)
    × (find_row (of_peer p) room.transports ≡ none)
    × (0 < length room.participants)
    × ((q : ℕ) → q ≢ p → is_in room.participants q ≡ is_in old.participants q)
    × ((q : ℕ)
        → q ≢ p
        → select_where (of_peer q) room.transports ≡ select_where (of_peer q) old.transports)
    × (room.producers ≡ old.producers)
    × (room.consumers ≡ old.consumers)

drop_peer-left :
    (k p : ℕ) (o : Option Room) (s : Sfu)
    → lookup k s.rooms ≡ o
    → HasLeft p o (lookup k (drop_peer k p o s).rooms)
      × ((j : ℕ) → j ≢ k → lookup j (drop_peer k p o s).rooms ≡ lookup j s.rooms)
drop_peer-left k p none s e = (e, λ j. λ other. refl)
drop_peer-left k p (some room) s e =
    elim (Bool-cases (length (without_peer p room).participants == 0)) [
      | inl gone ↦ rw gone (
        rw (lookup-erase k k s.rooms, ==-self k)
            (λ q. λ there. nobody-in p q room.participants gone there),
        λ j. λ other. ground (arith, lookup-erase k j s.rooms),
      )
      | inr stays ↦ rw stays (
        rw (lookup-insert k k (without_peer p room) s.rooms, ==-self k)
            (
              absent-in p room.participants,
              no_transport p room.transports,
              ground arith,
              λ q. λ other. others-in p q room.participants other,
              λ q. λ other. others-transports p q room.transports other,
              refl,
              refl,
            ),
        λ j. λ other. ground (arith, lookup-insert k j (without_peer p room) s.rooms),
      )
    ]

-- When a peer leaves a room, the room is deleted only if nobody else was in it; if it stays, the peer is
-- neither among its participants nor has a transport in it, the others are in it still with their
-- transports, and its maps of producers and consumers keep all their entries, the peer's own among
-- them. The other rooms are as they were.
pub remove_participant-left :
    (k p : ℕ) (s : Sfu)
    → HasLeft p (lookup k s.rooms) (lookup k (remove_participant k p s).rooms)
      × ((j : ℕ) → j ≢ k → lookup j (remove_participant k p s).rooms ≡ lookup j s.rooms)
unfolding remove_participant
remove_participant-left k p s = drop_peer-left k p (lookup k s.rooms) s refl
