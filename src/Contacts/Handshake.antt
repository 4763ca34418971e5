-- ===== src/Contacts/Handshake.antt =====
-- The handshake that saves two users as contacts of each other, and the pairs that are stored.
use video_calling.Base.{
  ℕ, ◌≤◌, ◌≡◌, refl, sym, ◌∙◌, ap, subst, Bool, true, false, none, some, List, [], ◌∷◌, arith,
  is_some, find_row, update_where, delete_where, count_where, find_row-append, find_row-append_some,
  count-append, Option-cases, inl, inr,
}
use video_calling.Database.{Text, Database, Contact, RequestStatus, accepted, SaveRequest}
use video_calling.Audit.Append.{log-KeepsRest}
use video_calling.Contacts.{
  is_pending, awaits, resolved, owns, save_contact, accept_found, accept_contact_save,
  reject_contact_save, own_contact, update_nickname, remove_contact,
}

save_contact-find :
    (id now o c : ℕ) (cs : List Contact)
    → is_some (find_row (owns o c) (save_contact id now o c cs)) ≡ true
unfolding save_contact
save_contact-find id now o c cs = elim (Option-cases (find_row (owns o c) cs)) [
  | inl absent ↦ rw absent (rw (find_row-append (owns o c) cs _ absent) (ground arith))
  | inr (x, found) ↦ rw (found, found) refl
]

save_contact-keeps :
    (id now o c p q : ℕ) (cs : List Contact)
    → is_some (find_row (owns p q) cs) ≡ true
    → is_some (find_row (owns p q) (save_contact id now o c cs)) ≡ true
unfolding save_contact
save_contact-keeps id now o c p q cs h = elim (Option-cases (find_row (owns o c) cs)) [
  | inl absent ↦ elim (Option-cases (find_row (owns p q) cs)) [
    | inl lacks ↦ absurd (ground (arith, h, lacks))
    | inr (y, e) ↦ rw absent (rw (find_row-append_some (owns p q) cs _ {x = y} e) refl)
  ]
  | inr (x, found) ↦ rw found h
]

find-resolved :
    (now k u : ℕ) (status : RequestStatus) (rs : List SaveRequest)
    → is_pending status ≡ false
    → find_row (awaits k u) (update_where (awaits k u) (resolved now status) rs) ≡ none
find-resolved now k u status [] h = refl
find-resolved now k u status (r ∷ rs) h = ground (arith, find-resolved now k u status rs)

accepted-tables :
    (i j now k u : ℕ) (ip : Text) (d : Database) (r : SaveRequest)
    → find_row (awaits k u) d.save_requests ≡ some r
    → let t : Bool × Database = accept_contact_save i j now k u ip d in
      (t.0 ≡ true)
      × (t.1.contacts
          ≡ save_contact j now r.to_user_id r.from_user_id
              (save_contact i now r.from_user_id r.to_user_id d.contacts))
      × (t.1.save_requests ≡ update_where (awaits k u) (resolved now accepted) d.save_requests)
unfolding accept_contact_save
accepted-tables i j now k u ip d r found =
    rw (found, accept_found)
      (refl, (log-KeepsRest now _ _).contacts, (log-KeepsRest now _ _).save_requests)

accept_nothing :
    (i j now k u : ℕ) (ip : Text) (d : Database)
    → find_row (awaits k u) d.save_requests ≡ none
    → accept_contact_save i j now k u ip d ≡ (false, d)
unfolding accept_contact_save
accept_nothing i j now k u ip d absent = rw (absent, accept_found) refl

-- The two are contacts of each other.
abbrev pub AreContacts : ℕ → ℕ → Database → Type 0
AreContacts a b d =
    (is_some (find_row (owns a b) d.contacts) ≡ true)
    × (is_some (find_row (owns b a) d.contacts) ≡ true)

-- Accepting a request saves exactly when the request is pending and addressed to the one who accepts.
-- Then the two users are contacts of each other, and a second acceptance saves nothing. Otherwise
-- nothing is stored.
pub accept_contact_save-handshake :
    (i j now k u : ℕ) (ip : Text) (d : Database)
    → ((r : SaveRequest)
        → find_row (awaits k u) d.save_requests ≡ some r
        → ((accept_contact_save i j now k u ip d).0 ≡ true)
          × AreContacts r.from_user_id r.to_user_id (accept_contact_save i j now k u ip d).1
          × ((i' j' later : ℕ)
              → (accept_contact_save i' j' later k u ip (accept_contact_save i j now k u ip d).1).0
                ≡ false))
      × ((find_row (awaits k u) d.save_requests ≡ none)
          → accept_contact_save i j now k u ip d ≡ (false, d))
accept_contact_save-handshake i j now k u ip d = (
  λ r. λ found.
      let t = accepted-tables i j now k u ip d r found in
      let first : List Contact = save_contact i now r.from_user_id r.to_user_id d.contacts in
      (
        t.0,
        (
          rw t.1 (
              save_contact-keeps j now r.to_user_id r.from_user_id r.from_user_id r.to_user_id first
                (save_contact-find i now r.from_user_id r.to_user_id d.contacts)),
          rw t.1 (save_contact-find j now r.to_user_id r.from_user_id first),
        ),
        λ i'. λ j'. λ later.
            ap (λ x. x.0)
              (accept_nothing i' j' later k u ip (accept_contact_save i j now k u ip d).1 (
                ap (find_row (awaits k u)) t.2
                ∙ find-resolved now k u accepted d.save_requests refl)),
      ),
  λ absent. accept_nothing i j now k u ip d absent,
)

-- Turning a request down, in time or not, leaves nothing to accept, and the contacts as they are.
pub reject_contact_save-accept :
    (now k u : ℕ) (d : Database)
    → ((reject_contact_save now k u d).contacts ≡ d.contacts)
      × ((i j later : ℕ) (ip : Text)
          → (accept_contact_save i j later k u ip (reject_contact_save now k u d)).0 ≡ false)
unfolding reject_contact_save
reject_contact_save-accept now k u d = (
  (log-KeepsRest now _ _).contacts,
  λ i. λ j. λ later. λ ip.
      ap (λ x. x.0)
        (accept_nothing i j later k u ip _ (
          ap (find_row (awaits k u)) (log-KeepsRest now _ _).save_requests
          ∙ find-resolved now k u RequestStatus.rejected d.save_requests refl)),
)

-- Nobody has the same contact twice.
abbrev pub HasDistinctPairs : List Contact → Type 0
HasDistinctPairs cs = (o c : ℕ) → count_where (owns o c) cs ≤ 1

count-none : (q : Contact → Bool) (cs : List Contact) → find_row q cs ≡ none → count_where q cs ≡ 0
count-none q [] h = refl
count-none q (c ∷ cs) h = ground (arith, count-none q cs)

save_contact-HasDistinctPairs :
    (id now o c : ℕ) (cs : List Contact)
    → HasDistinctPairs cs
    → HasDistinctPairs (save_contact id now o c cs)
unfolding save_contact
save_contact-HasDistinctPairs id now o c cs h p q = elim (Option-cases (find_row (owns o c) cs)) [
  | inl absent ↦ rw absent (
      let zero_of : o ≡ p → c ≡ q → count_where (owns p q) cs ≡ 0 = λ a. λ b.
        subst (λ y. count_where (owns p y) cs ≡ 0) b
          (subst (λ x. count_where (owns x c) cs ≡ 0) a (count-none (owns o c) cs absent)) in
      ground (
        arith,
        count-append (owns p q) cs (
            record { id = id; owner_id = o; contact_user_id = c; nickname = none; saved_at = now }
            ∷ []),
        h p q,
        zero_of,
      ))
  | inr (x, found) ↦ rw found (h p q)
]

count-delete :
    (q p : Contact → Bool) (cs : List Contact)
    → count_where q (delete_where p cs) ≤ count_where q cs
count-delete q p [] = omega arith
count-delete q p (c ∷ cs) = ground (arith, count-delete q p cs)

count-rename :
    (o c : ℕ) (p : Contact → Bool) (n : ℕ) (cs : List Contact)
    → count_where (owns o c) (update_where p (λ x. record x { nickname = some n }) cs)
      ≡ count_where (owns o c) cs
count-rename o c p n [] = refl
count-rename o c p n (x ∷ cs) = ground (arith, count-rename o c p n cs)

-- Accepting a request, renaming a contact and removing one keep every stored pair the only one.
pub contacts-HasDistinctPairs :
    (d : Database)
    → HasDistinctPairs d.contacts
    → ((i j now k u : ℕ) (ip : Text)
        → HasDistinctPairs (accept_contact_save i j now k u ip d).1.contacts)
      × ((o k n : ℕ) → HasDistinctPairs (update_nickname o k n d).contacts)
      × ((o k : ℕ) → HasDistinctPairs (remove_contact o k d).contacts)
unfolding update_nickname remove_contact
contacts-HasDistinctPairs d h = (
  λ i. λ j. λ now. λ k. λ u. λ ip. elim (Option-cases (find_row (awaits k u) d.save_requests)) [
    | inl absent ↦
        subst HasDistinctPairs
          (sym (ap (λ x. x.1.contacts) (accept_nothing i j now k u ip d absent))) h
    | inr (r, found) ↦ subst HasDistinctPairs (sym (accepted-tables i j now k u ip d r found).1) (
        save_contact-HasDistinctPairs j now r.to_user_id r.from_user_id _
          (save_contact-HasDistinctPairs i now r.from_user_id r.to_user_id d.contacts h))
  ],
  λ o. λ k. λ n. λ p. λ q. rw (count-rename p q (own_contact o k) n d.contacts) (h p q),
  λ o. λ k. λ p. λ q. omega (arith, h p q, count-delete (owns p q) (own_contact o k) d.contacts),
)
