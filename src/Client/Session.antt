-- ===== src/Client/Session.antt =====
-- frontend/src/hooks/useAuth.tsx: the provider's state and its operations. `is_mounted` is the
-- flag `mounted` when the first refresh ends. The body of a request is one text.
use video_calling.Base.{
  ℕ, Bool, true, false, ◌==◌, Option, none, some, List, [], ◌∷◌, ◌++◌, if◌then◌else◌,
}
use video_calling.Auth.{post}
use video_calling.Client.{
  Endpoint, auth_login, auth_register, auth_logout, Tokens, Json, Response, is_ok, Server, Tab,
}
use video_calling.Client.Api.{
  FetchOptions, forget_tokens, keep_tokens, json_type, refresh_auth_token, api_fetch,
}

pub data Page : Type 0 where
  login_page dashboard_page : Page

-- The state of the provider, the tab it runs in, and what the router was told to open.
pub record Provider : Type 0 where
  pub is_authenticated : Bool
  pub is_loading : Bool
  pub user_email : Option ℕ
  pub tab : Tab
  pub pushed : List Page

abbrev pub push : Page → Provider → Provider
push page p = record p { pushed = p.pushed ++ page ∷ [] }

abbrev pub set_loading : Bool → Provider → Provider
set_loading loading p = record p { is_loading = loading }

abbrev pub handle_unauthorized : Provider → Provider
handle_unauthorized p = push login_page (record p { is_authenticated = false })

-- The listener runs when the event is dispatched.
abbrev pub heard : (before : ℕ) → Provider → Provider
heard before p = if p.tab.unauthorized == before then p else handle_unauthorized p

abbrev pub request_options : (content_type body : Option ℕ) → FetchOptions
request_options content_type body = record {
  method = some post;
  content_type = content_type;
  body = body;
}

-- The first render.
abbrev pub mount : Tab → Provider
mount tab = record {
  is_authenticated = false;
  is_loading = true;
  user_email = none;
  tab = tab;
  pushed = [];
}

module _ (server : Server) where
  -- `initAuth`
  abbrev pub initialised : (is_mounted : Bool) → Bool × Tab → Provider → Provider
  initialised false (refreshed, tab) p = record p { tab = tab }
  initialised true (true, tab) p = record p {
    is_authenticated = true;
    user_email = tab.user_email;
    is_loading = false;
    tab = tab;
  }
  initialised true (false, tab) p = record p {
    is_authenticated = false;
    is_loading = false;
    tab = tab;
  }

  unfoldable pub init_auth : (is_mounted : Bool) → Provider → Provider
  init_auth is_mounted p = initialised is_mounted (refresh_auth_token server p.tab) p

  abbrev pub call_api : Endpoint → FetchOptions → Provider → Option Response × Provider
  call_api endpoint options p =
      let (response, tab) = api_fetch server endpoint options p.tab in
      (response, heard p.tab.unauthorized (record p { tab = tab }))

  abbrev pub signed_in : (email : ℕ) → Tokens → Provider → Provider
  signed_in email t p = push dashboard_page (record p {
    is_authenticated = true;
    user_email = some email;
    tab = record (keep_tokens t p.tab) { user_email = some email };
  })

  -- Reading a token of `undefined` throws. The flag tells whether the call returned.
  abbrev pub with_data : (email : ℕ) → Option Tokens → Provider → Bool × Provider
  with_data email none p = (false, p)
  with_data email (some t) p = (true, signed_in email t p)

  abbrev pub with_fields : (email : ℕ) → Option Json → Provider → Bool × Provider
  with_fields email none p = (false, p)
  with_fields email (some json) p = with_data email json.fields p

  abbrev pub logged_in : (email : ℕ) → Option Response × Provider → Bool × Provider
  logged_in email (none, p) = (false, p)
  logged_in email (some response, p) =
      if is_ok response then with_fields email response.json p else (false, p)

  -- `finally`
  abbrev pub stop_loading : Bool × Provider → Bool × Provider
  stop_loading (returned, p) = (returned, set_loading false p)

  unfoldable pub login : (email body : ℕ) → Provider → Bool × Provider
  login email body p = stop_loading (
      logged_in email
        (call_api auth_login (request_options (some json_type) (some body)) (set_loading true p)))

  abbrev pub registered : (email body : ℕ) → Option Response × Provider → Bool × Provider
  registered email body (none, p) = (false, p)
  registered email body (some response, p) =
      if is_ok response then login email body p else (false, p)

  unfoldable pub register : (email body : ℕ) → Provider → Bool × Provider
  unfolding login
  register email body p = stop_loading (
      registered email body (
        call_api auth_register (request_options (some json_type) (some body)) (set_loading true p)))

  abbrev pub forgotten : Provider → Provider
  forgotten p = push login_page (record p {
    is_authenticated = false;
    is_loading = false;
    user_email = none;
    tab = record (forget_tokens p.tab) { user_email = none };
  })

  -- An error of the request is only logged.
  unfoldable pub logout : Provider → Provider
  logout p = forgotten (call_api auth_logout (request_options none none) (set_loading true p)).1
