-- ===== src/Gateway/Membership.antt =====
-- The two maps of who is online, and their operations on a user's sockets.
use video_calling.Base.{
  ℕ, ◌<◌, ◌≡◌, refl, sym, ◌∙◌, ap, subst, Bool, true, false, Option, none, some, List, [], ◌∷◌,
  ◌++◌, arith, ◌==◌, Assoc, lookup, insert, erase, lookup-insert, lookup-erase, exists_where,
  length, if◌then◌else◌, or_else, eq_some, Bool-cases, inl, inr, ==_iff,
}
use video_calling.Gateway.{SocketMeta}
use video_calling.Gateway.Connection.{add_socket, remove_socket, register_in, unregister_in}

abbrev pub is_in : List ℕ → ℕ → Bool
is_in ss s = exists_where (λ x. x == s) ss

-- `userSockets` has the socket for the user.
abbrev pub has_socket : Assoc (List ℕ) → (user socket : ℕ) → Bool
has_socket m user socket = is_in (or_else (lookup user m) []) socket

abbrev pub is_of : Option SocketMeta → (user : ℕ) → Bool
is_of none user = false
is_of (some m) user = eq_some m.user_id user

-- The socket is connected for the user.
abbrev pub is_user : Assoc SocketMeta → (socket user : ℕ) → Bool
is_user sockets socket user = is_of (lookup socket sockets) user

-- Each user has exactly the sockets that are connected for the user, and a set that is kept is not empty.
pub record AreInStep (sockets : Assoc SocketMeta) (users : Assoc (List ℕ)) : Type 0 where
  pub same : (user socket : ℕ) → has_socket users user socket ≡ is_user sockets socket user
  pub filled : (user : ℕ) (ss : List ℕ) → lookup user users ≡ some ss → 0 < length ss

is_in-push :
    (s x : ℕ) (ss : List ℕ) → is_in (ss ++ s ∷ []) x ≡ (if s == x then true else is_in ss x)
is_in-push s x [] = refl
is_in-push s x (y ∷ ss) = ground (arith, is_in-push s x ss)

pub is_in-add :
    (s x : ℕ) (ss : List ℕ) → is_in (add_socket s ss) x ≡ (if s == x then true else is_in ss x)
is_in-add s x ss = elim (Bool-cases (is_in ss s)) [
  | inl there ↦ rw there (elim (Bool-cases (s == x)) [
    | inl same ↦ rw same (subst (λ y. is_in ss y ≡ true) ((==_iff s x).0 same) there)
    | inr other ↦ rw other refl
  ])
  | inr new ↦ rw new (is_in-push s x ss)
]

pub is_in-remove :
    (s x : ℕ) (ss : List ℕ) → is_in (remove_socket s ss) x ≡ (if s == x then false else is_in ss x)
is_in-remove s x [] = ground arith
is_in-remove s x (y ∷ ss) = ground (arith, is_in-remove s x ss)

-- The sets after an insertion at a user.
has_socket-insert :
    (u v x : ℕ) (ss : List ℕ) (m : Assoc (List ℕ))
    → has_socket (insert u ss m) v x ≡ (if u == v then is_in ss x else has_socket m v x)
has_socket-insert u v x ss m =
    ap (λ o. is_in (or_else o []) x) (lookup-insert u v ss m)
    ∙ elim (Bool-cases (u == v)) [ inl same ↦ rw same refl | inr other ↦ rw other refl ]

has_socket-erase :
    (u v x : ℕ) (m : Assoc (List ℕ))
    → has_socket (erase u m) v x ≡ (if u == v then false else has_socket m v x)
has_socket-erase u v x m =
    ap (λ o. is_in (or_else o []) x) (lookup-erase u v m)
    ∙ elim (Bool-cases (u == v)) [ inl same ↦ rw same refl | inr other ↦ rw other refl ]

-- What `o`, the user's set, is known to be.
pub has_socket-register :
    (u s v x : ℕ) (o : Option (List ℕ)) (m : Assoc (List ℕ))
    → has_socket (register_in o u s m) v x
      ≡ (if u == v then (if s == x then true else is_in (or_else o []) x) else has_socket m v x)
has_socket-register u s v x none m = has_socket-insert u v x (s ∷ []) m
has_socket-register u s v x (some ss) m =
    has_socket-insert u v x (add_socket s ss) m ∙ rw (is_in-add s x ss) refl

is_in-empty : (ss : List ℕ) (x : ℕ) → (length ss == 0) ≡ true → is_in ss x ≡ false
is_in-empty [] x h = refl
is_in-empty (y ∷ ss) x h = absurd (ground (arith, h))

pub has_socket-unregister :
    (u s v x : ℕ) (o : Option (List ℕ)) (m : Assoc (List ℕ))
    → lookup u m ≡ o
    → has_socket (unregister_in o u s m) v x
      ≡ (if u == v then (if s == x then false else is_in (or_else o []) x) else has_socket m v x)
has_socket-unregister u s v x none m e = elim (Bool-cases (u == v)) [
  | inl same ↦ rw same (
      ap (λ o. is_in (or_else o []) x) (subst (λ y. lookup y m ≡ none) ((==_iff u v).0 same) e)
      ∙ ground arith)
  | inr other ↦ rw other refl
]
has_socket-unregister u s v x (some ss) m e = elim (Bool-cases (length (remove_socket s ss) == 0)) [
  | inl gone ↦ rw gone (
      has_socket-erase u v x m
      ∙ ap (λ b. if u == v then b else has_socket m v x)
          (sym (is_in-empty (remove_socket s ss) x gone) ∙ is_in-remove s x ss))
  | inr stays ↦
      rw stays (has_socket-insert u v x (remove_socket s ss) m ∙ rw (is_in-remove s x ss) refl)
]
