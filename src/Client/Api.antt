-- ===== src/Client/Api.antt =====
-- frontend/src/lib/api.ts. Log lines and the constant headers are left out.
use video_calling.Base.{
  ℕ, ◌+◌, Bool, true, false, ◌&&◌, not, ◌==◌, Option, none, some, [], ◌∷◌, ◌++◌, if◌then◌else◌,
  truthy_option, is_some, or_else, non_empty,
}
use video_calling.Auth.{HttpMethod, get, post, is_unsafe}
use video_calling.Client.{
  Authorization, unsigned, bearer_null, bearer, Endpoint, auth_refresh, auth_login, HttpCall,
  Tokens, Json, Response, is_ok, Server, Tab,
}
use video_calling.Client.Cookies.{get_csrf_token}

-- `undefined`, `null` and the empty string remove the item, and all of them are no token.
abbrev pub set_access_token : Option ℕ → Tab → Tab
set_access_token token tab = record tab { access_token = token; stored_access = non_empty token }

abbrev pub get_access_token : Tab → Option ℕ
get_access_token tab =
    if truthy_option tab.access_token then tab.access_token else tab.stored_access

abbrev pub set_refresh_token : Option ℕ → Tab → Tab
set_refresh_token token tab = record tab { stored_refresh = non_empty token }

abbrev pub get_refresh_token : Tab → Option ℕ
get_refresh_token tab = tab.stored_refresh

abbrev pub forget_tokens : Tab → Tab
forget_tokens tab = set_refresh_token none (set_access_token none tab)

abbrev pub keep_tokens : Tokens → Tab → Tab
keep_tokens t tab = set_refresh_token t.refresh_token (set_access_token t.access_token tab)

-- `fetch`
abbrev pub send : HttpCall → Tab → Tab
send call tab = record tab { sent = tab.sent ++ call ∷ [] }

-- 'application/json'
abbrev pub json_type : ℕ
json_type = 1

-- The raw refresh token is the body.
abbrev pub refresh_call : (refresh_token : ℕ) → HttpCall
refresh_call refresh_token = record {
  endpoint = auth_refresh;
  method = post;
  authorization = unsigned;
  csrf_token = none;
  content_type = some json_type;
  body = some refresh_token;
}

-- After `fetch`, in `refreshAuthToken`: an answer that is not ok, a body that is not JSON and a
-- request that fails forget the tokens.
abbrev pub with_json : Option Json → Tab → Bool × Tab
with_json none tab = (false, forget_tokens tab)
with_json (some answer) tab = (true, keep_tokens answer.top tab)

abbrev pub with_answer : Option Response → Tab → Bool × Tab
with_answer none tab = (false, forget_tokens tab)
with_answer (some res) tab =
    if is_ok res then with_json res.json tab else (false, forget_tokens tab)

-- What a caller passes to `apiFetch`. Its headers are `Content-Type` or none.
pub record FetchOptions : Type 0 where
  pub method : Option HttpMethod
  pub content_type : Option ℕ
  pub body : Option ℕ

abbrev pub first_authorization : Option ℕ → Authorization
first_authorization none = unsigned
first_authorization (some token) = if token == 0 then unsigned else bearer token

-- `Bearer ${getAccessToken()}`
abbrev pub retry_authorization : Option ℕ → Authorization
retry_authorization none = bearer_null
retry_authorization (some token) = bearer token

abbrev pub first_call : Endpoint → FetchOptions → Tab → HttpCall
first_call endpoint options tab = record {
  endpoint = endpoint;
  method = or_else options.method get;
  authorization = first_authorization (get_access_token tab);
  csrf_token = if is_unsafe (or_else options.method get) then get_csrf_token tab.cookie else none;
  content_type =
      if truthy_option options.body && not (is_some options.content_type)
      then some json_type
      else options.content_type;
  body = options.body;
}

abbrev pub retried : HttpCall → Tab → HttpCall
retried call tab = record call { authorization = retry_authorization (get_access_token tab) }

abbrev pub is_retried : Endpoint → Bool
is_retried auth_refresh = false
is_retried auth_login = false
is_retried _ = true

module _ (server : Server) where
  abbrev pub refresh_with : Option ℕ → Tab → Bool × Tab
  refresh_with none tab = (false, tab)
  refresh_with (some token) tab =
      if token == 0
      then (false, tab)
      else with_answer (server (tab.sent ++ refresh_call token ∷ []))
          (send (refresh_call token) tab)

  unfoldable pub refresh_auth_token : Tab → Bool × Tab
  refresh_auth_token tab = refresh_with (get_refresh_token tab) tab

  abbrev pub fetch : HttpCall → Tab → Option Response × Tab
  fetch call tab = (server (tab.sent ++ call ∷ []), send call tab)

  -- After the refresh of a request that got 401: the request again, or the event.
  abbrev pub retry : HttpCall → Response → Bool × Tab → Option Response × Tab
  retry call response (true, tab) = fetch (retried call tab) tab
  retry call response (false, tab) =
      (some response, record tab { unauthorized = tab.unauthorized + 1 })

  abbrev pub after_first : HttpCall → Option Response → Tab → Option Response × Tab
  after_first call none tab = (none, tab)
  after_first call (some response) tab =
      if response.status == 401 && is_retried call.endpoint
      then retry call response (refresh_auth_token tab)
      else (some response, tab)

  -- No response where `fetch` throws.
  unfoldable pub api_fetch : Endpoint → FetchOptions → Tab → Option Response × Tab
  unfolding refresh_auth_token
  api_fetch endpoint options tab =
      let call = first_call endpoint options tab in
      after_first call (server (tab.sent ++ call ∷ [])) (send call tab)
