-- ===== src/Client.antt =====
-- The browser side, frontend/src: what the tab keeps, and the requests it sends. The tab's own code is
-- modelled; the server is a function from the requests so far to what the last one gets, which may
-- be no answer at all.
pub mod Api
pub mod Requests
pub mod Refreshing
pub mod Session
pub mod Media
pub mod Tracks
pub mod Recording
pub mod Peer
pub mod Handshake
pub mod Negotiation
pub mod Accepted
pub mod Settling
pub mod AnonymousRoom
pub mod Matched
pub mod ContactBook
pub mod CallPage
pub mod SignIn
pub mod Cookies
pub mod CookieText
mod Tests
use video_calling.Base.{
  ℕ, Bool, true, false, ◌&&◌, not, ltb, Option, none, some, List, [], ◌∷◌, ◌++◌, if◌then◌else◌,
  truthy, truthy_option,
}
use video_calling.Database.{Text}
use video_calling.Auth.{HttpMethod}
use video_calling.Contacts.{ListedContact}

-- The header of the access token. A template literal prints `null` where there is no token.
pub data Authorization : Type 0 where
  unsigned bearer_null : Authorization
  bearer : (token : ℕ) → Authorization

-- The endpoints below API_URL that the code tells apart.
pub data Endpoint : Type 0 where
  auth_refresh auth_login auth_register auth_logout : Endpoint
  other : (path : ℕ) → Endpoint

pub record HttpCall : Type 0 where
  pub endpoint : Endpoint
  pub method : HttpMethod
  pub authorization : Authorization
  pub csrf_token : Option Text
  pub content_type : Option ℕ
  pub body : Option ℕ

-- The fields of a JSON object that the client reads; a field that is absent is `undefined`.
pub record Tokens : Type 0 where
  pub access_token : Option ℕ
  pub refresh_token : Option ℕ

-- `data.accessToken` and `data.data.accessToken`; `fields` is absent where there is no `data`, and
-- `listed` is `data.data` where it is the list of contacts.
pub record Json : Type 0 where
  pub top : Tokens
  pub fields : Option Tokens
  pub listed : Option (List ListedContact)

-- `json` is absent where the body is not JSON.
pub record Response : Type 0 where
  pub status : ℕ
  pub json : Option Json

-- `Response.ok`
abbrev pub is_ok : Response → Bool
is_ok r = not (ltb r.status 200) && ltb r.status 300

-- The answer to the last of the requests, or none where `fetch` rejects.
abbrev pub Server : Type 0
Server = List HttpCall → Option Response

-- `access_token` is the variable of api.ts; `stored_access`, `stored_refresh` and `user_email` are
-- in localStorage, `cookie` is `document.cookie`, and `unauthorized` counts the events
-- 'auth:unauthorized'. The code runs in a browser.
pub record Tab : Type 0 where
  pub access_token : Option ℕ
  pub stored_access : Option ℕ
  pub stored_refresh : Option ℕ
  pub user_email : Option ℕ
  pub cookie : Text
  pub sent : List HttpCall
  pub unauthorized : ℕ
