-- ===== src/Client/ContactBook.antt =====
-- frontend/src/hooks/useContacts.ts. The paths of the requests are numbers that the caller gives:
-- `list` for /contacts, and one for each of the others. A rejected request throws out of the handler.
use video_calling.Base.{
  ℕ, ◌≡◌, refl, Bool, true, false, Option, none, some, List, [], if◌then◌else◌, ◌==◌, delete_where,
}
use video_calling.Auth.{HttpMethod, post, patch, delete}
use video_calling.Contacts.{ListedContact}
use video_calling.Web.{Reply, Answer, envelope}
use video_calling.Client.{other, Json, Response, is_ok, Server, Tab}
use video_calling.Client.Api.{FetchOptions, api_fetch}
use video_calling.Client.Refreshing.{response_of}

-- `contacts` is `undefined` after an answer without data.
pub record Book : Type 0 where
  pub contacts : Option (List ListedContact)
  pub is_loading : Bool
  pub tab : Tab

abbrev pub new_book : Tab → Book
new_book tab = record { contacts = some []; is_loading = true; tab = tab }

abbrev pub plain : HttpMethod → (body : Option ℕ) → FetchOptions
plain method body = record { method = some method; content_type = none; body = body }

abbrev no_options : FetchOptions
no_options = record { method = none; content_type = none; body = none }

abbrev pub set_listed : Option Json → Book → Book
set_listed none b = b
set_listed (some json) b = record b { contacts = json.listed }

abbrev pub show_answer : Option Response → Book → Book
show_answer none b = b
show_answer (some res) b = if is_ok res then set_listed res.json b else b

-- `finally`
abbrev pub loaded : Book → Book
loaded b = record b { is_loading = false }

abbrev pub with_tab : Tab → Book → Book
with_tab tab b = record b { tab = tab }

module _ (server : Server) (list : ℕ) where
  unfoldable pub fetch_contacts : Book → Book
  fetch_contacts b =
      let (answer, tab) = api_fetch server (other list) no_options b.tab in
      loaded (show_answer answer (with_tab tab (record b { is_loading = true })))

  -- The flag tells whether the handler returned.
  abbrev pub then_fetch : Option Response × Tab → Book → Bool × Book
  then_fetch (none, tab) b = (false, with_tab tab b)
  then_fetch (some res, tab) b = (true, fetch_contacts (with_tab tab b))

  unfoldable pub accept_request : (path body : ℕ) → Book → Bool × Book
  unfolding fetch_contacts
  accept_request path body b =
      then_fetch (api_fetch server (other path) (plain post (some body)) b.tab) b

  abbrev pub returned : Option Response × Tab → Book → Bool × Book
  returned (none, tab) b = (false, with_tab tab b)
  returned (some res, tab) b = (true, with_tab tab b)

  unfoldable pub reject_request : (path : ℕ) → Book → Bool × Book
  reject_request path b = returned (api_fetch server (other path) (plain post none) b.tab) b

  unfoldable pub update_nickname : (path body : ℕ) → Book → Bool × Book
  unfolding fetch_contacts
  update_nickname path body b =
      then_fetch (api_fetch server (other path) (plain patch (some body)) b.tab) b

  abbrev pub without : (contact_id : ℕ) → Option (List ListedContact) → Option (List ListedContact)
  without contact_id none = none
  without contact_id (some rows) = some (delete_where (λ r. r.contact.id == contact_id) rows)

  -- Whatever the status of the answer.
  abbrev pub then_drop : (contact_id : ℕ) → Option Response × Tab → Book → Bool × Book
  then_drop contact_id (none, tab) b = (false, with_tab tab b)
  then_drop contact_id (some res, tab) b =
      (true, record b { contacts = without contact_id b.contacts; tab = tab })

  unfoldable pub delete_contact : (path contact_id : ℕ) → Book → Bool × Book
  delete_contact path contact_id b =
      then_drop contact_id (api_fetch server (other path) (plain delete none) b.tab) b

  -- When the server answers the request for the list with the reply of its route, the book shows
  -- exactly the rows of that reply; with an answer that is not ok or no answer it shows what it
  -- showed. It stops loading in every case.
  pub fetch_contacts-shown :
      (b : Book)
      → ((fetch_contacts b).is_loading ≡ false)
        × ((reply : Reply) (rows : List ListedContact)
            → (api_fetch server (other list) no_options b.tab).0 ≡ some (response_of reply)
            → reply.body ≡ envelope true (Answer.contacts rows)
            → is_ok (response_of reply) ≡ true
            → (fetch_contacts b).contacts ≡ some rows)
        × ((res : Response)
            → (api_fetch server (other list) no_options b.tab).0 ≡ some res
            → is_ok res ≡ false
            → (fetch_contacts b).contacts ≡ b.contacts)
        × ((api_fetch server (other list) no_options b.tab).0 ≡ none
            → (fetch_contacts b).contacts ≡ b.contacts)
  unfolding fetch_contacts
  fetch_contacts-shown b = (
    refl,
    λ reply. λ rows. λ answer. λ body. λ good. rw (answer, good, body) refl,
    λ res. λ answer. λ bad. rw (answer, bad) refl,
    λ answer. rw answer refl,
  )

  -- The contact disappears from the list with every answer to its removal, a refusal among them.
  pub delete_contact-dropped :
      (path contact_id : ℕ) (b : Book) (res : Response)
      → (api_fetch server (other path) (plain delete none) b.tab).0 ≡ some res
      → (delete_contact path contact_id b).1.contacts ≡ without contact_id b.contacts
  unfolding delete_contact
  delete_contact-dropped path contact_id b res answer = rw answer refl
