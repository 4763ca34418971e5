-- ===== src/Contacts/Tests.antt =====
-- The properties of this component at concrete inputs.
use video_calling.Base.{ℕ, ◌≡◌, refl, true, false, none, [], ◌∷◌, arith}
use video_calling.Database.{Database, SaveRequest, pending, Text}
use video_calling.Samples.{signed_in}
use video_calling.Contacts.{accept_contact_save, update_nickname, remove_contact}
use video_calling.Contacts.Handshake.{
  AreContacts, HasDistinctPairs, accept_contact_save-handshake, contacts-HasDistinctPairs,
}

abbrev asked : SaveRequest
asked = record {
  id = 9;
  call_session_id = 60;
  from_user_id = 1;
  to_user_id = 2;
  status = pending;
  created_at = 5;
  resolved_at = none;
}

abbrev waiting : Database
waiting = record signed_in { save_requests = asked ∷ [] }

accept_contact_save-handshake_example :
    ((accept_contact_save 3 4 10 9 2 [] waiting).0 ≡ true)
    × AreContacts 1 2 (accept_contact_save 3 4 10 9 2 [] waiting).1
    × ((i j later : ℕ)
        → (accept_contact_save i j later 9 2 [] (accept_contact_save 3 4 10 9 2 [] waiting).1).0
          ≡ false)
accept_contact_save-handshake_example =
    (accept_contact_save-handshake 3 4 10 9 2 [] waiting).0 asked refl

contacts-HasDistinctPairs_example :
    ((i j now k u : ℕ) (ip : Text)
      → HasDistinctPairs (accept_contact_save i j now k u ip waiting).1.contacts)
    × ((o k n : ℕ) → HasDistinctPairs (update_nickname o k n waiting).contacts)
    × ((o k : ℕ) → HasDistinctPairs (remove_contact o k waiting).contacts)
contacts-HasDistinctPairs_example = contacts-HasDistinctPairs waiting (λ o. λ c. omega arith)
