-- ===== src/Contacts/Listing.antt =====
-- The list of contacts that a user sees: `listContacts` of src/contacts/contacts.service.ts.
use video_calling.Base.{
  ℕ, ◌≤◌, ◌≡◌, inl, inr, refl, arith, some, List, [], ◌∷◌, ◌==◌, find_row, select_where, order_desc,
  All, All-order, IsDescending, order-IsDescending, Option-cases,
}
use video_calling.Database.{Database, User, Contact}
use video_calling.Contacts.{ListedContact, with_emails, list_contacts}

abbrev saved : Contact → ℕ
saved c = c.saved_at

abbrev row_saved : ListedContact → ℕ
row_saved r = r.contact.saved_at

-- The row is of a contact of the user, with the address of a stored user.
abbrev pub IsListed : (user_id : ℕ) → List User → ListedContact → Type 0
IsListed user_id users r =
    (r.contact.owner_id ≡ user_id)
    × (u : User) × (find_row (λ x. x.id == r.contact.contact_user_id) users ≡ some u)
    × (r.contact_email ≡ u.email)

select-owned :
    (user_id : ℕ) (cs : List Contact)
    → All (λ c. c.owner_id ≡ user_id) (select_where (λ c. c.owner_id == user_id) cs)
select-owned user_id [] = tt
select-owned user_id (c ∷ cs) = ground (arith, select-owned user_id cs)

with_emails-le :
    (users : List User) (k : ℕ) (cs : List Contact)
    → All (λ c. saved c ≤ k) cs
    → All (λ r. row_saved r ≤ k) (with_emails users cs)
with_emails-le users k [] h = tt
with_emails-le users k (c ∷ cs) h =
    elim (Option-cases (find_row (λ u. u.id == c.contact_user_id) users)) [
      | inl e ↦ rw e (with_emails-le users k cs h.1)
      | inr (u, e) ↦ rw e (h.0, with_emails-le users k cs h.1)
    ]

with_emails-IsDescending :
    (users : List User) (cs : List Contact)
    → IsDescending saved cs
    → IsDescending row_saved (with_emails users cs)
with_emails-IsDescending users [] h = tt
with_emails-IsDescending users (c ∷ cs) h =
    elim (Option-cases (find_row (λ u. u.id == c.contact_user_id) users)) [
      | inl e ↦ rw e (with_emails-IsDescending users cs h.1)
      | inr (u, e) ↦
          rw e (with_emails-le users (saved c) cs h.0, with_emails-IsDescending users cs h.1)
    ]

with_emails-IsListed :
    (user_id : ℕ) (users : List User) (cs : List Contact)
    → All (λ c. c.owner_id ≡ user_id) cs
    → All (IsListed user_id users) (with_emails users cs)
with_emails-IsListed user_id users [] h = tt
with_emails-IsListed user_id users (c ∷ cs) h =
    elim (Option-cases (find_row (λ u. u.id == c.contact_user_id) users)) [
      | inl e ↦ rw e (with_emails-IsListed user_id users cs h.1)
      | inr (u, e) ↦ rw e ((h.0, u, e, refl), with_emails-IsListed user_id users cs h.1)
    ]

-- The list has the most recently saved contact first, and each row is of a contact of the user with
-- the stored address of the contact.
pub list_contacts-IsListed :
    (user_id : ℕ) (d : Database)
    → IsDescending row_saved (list_contacts user_id d)
      × All (IsListed user_id d.users) (list_contacts user_id d)
unfolding list_contacts
list_contacts-IsListed user_id d =
    let mine = select_where (λ c. c.owner_id == user_id) d.contacts in
    (
      with_emails-IsDescending d.users (order_desc saved mine) (order-IsDescending saved mine),
      with_emails-IsListed user_id d.users (order_desc saved mine)
          (All-order (λ c. c.owner_id ≡ user_id) saved mine (select-owned user_id d.contacts)),
    )
