-- ===== src/Client/Tests.antt =====
-- The properties of the browser's side at concrete inputs.
use video_calling.Base.{
  ℕ, Bool, lookup, exists_where, ◌≡◌, refl, true, false, none, some, [], ◌∷◌, ◌++◌, arith,
}
use video_calling.Samples.{ext, config}
use video_calling.Auth.{AuthTokens}
use video_calling.Web.{Reply}
use video_calling.Web.Logins.{signed_in_reply}
use video_calling.Client.{Response, Server, Tab, other, bearer_null}
use video_calling.Client.Api.{FetchOptions, first_call, refresh_auth_token, api_fetch, send}
use video_calling.Client.Cookies.{get_csrf_token}
use video_calling.Client.CookieText.{Cookie, render, get_csrf_token-render}
use video_calling.Client.Requests.{IsTrace, api_fetch-IsTrace}
use video_calling.Client.Refreshing.{
  IsTokenless, response_of, refresh_auth_token-outcome, api_fetch-bearer_null,
}
use video_calling.Client.Media.{
  MediaStream, Devices, granted, untouched, opened, start_media, stop_media,
}
use video_calling.Client.Tracks.{IsStoppedAt}
use video_calling.Client.Recording.{first, starts, answers, stop_media-IsStopped}
use video_calling.Client.Peer.{offer_effect}
use video_calling.Client.Handshake.{Line, from_caller}
use video_calling.Client.Accepted.{accepted_call}
use video_calling.Client.AnonymousRoom.{Partner, new_page}
use video_calling.Client.Matched.{
  found, renders, run, IsCoherent, run-IsCoherent, is_join, run-quiet,
}

abbrev fresh_tokens : AuthTokens
fresh_tokens = record { access_token = 5; refresh_token = 6; csrf_token = 7; expires_in = 900 }

-- The tab holds an old access token and a refresh token.
abbrev old_tab : Tab
old_tab = record {
  access_token = none;
  stored_access = some 3;
  stored_refresh = some 4;
  user_email = none;
  cookie = [];
  sent = [];
  unauthorized = 0;
}

abbrev refused : Response
refused = record { status = 401; json = none }

abbrev granted_reply : Reply
granted_reply = signed_in_reply ext config true 0 fresh_tokens

-- The server refuses the first request, grants new tokens, and refuses what comes then.
abbrev strict : Server
strict (a ∷ b ∷ []) = some (response_of granted_reply)
strict _ = some refused

abbrev generous : Server
generous _ = some (response_of granted_reply)

abbrev plain : FetchOptions
plain = record { method = none; content_type = none; body = none }

api_fetch-IsTrace_example :
    IsTrace
      (first_call (other 9) plain old_tab)
      []
      (api_fetch strict (other 9) plain old_tab).1.sent
api_fetch-IsTrace_example = api_fetch-IsTrace strict (other 9) plain old_tab

refresh_auth_token-outcome_example :
    ((refresh_auth_token (λ _. none) old_tab).0 ≡ false)
    × IsTokenless (refresh_auth_token (λ _. none) old_tab).1
refresh_auth_token-outcome_example =
    ((refresh_auth_token-outcome (λ _. none) old_tab).1 4 refl (λ e. omega (arith, e))).1
      (λ res. λ json. λ e. absurd (cc))

api_fetch-bearer_null_example :
    (api_fetch strict (other 9) plain old_tab).0
    ≡ strict (
        (refresh_auth_token strict (send (first_call (other 9) plain old_tab) old_tab)).1.sent
        ++ (record (first_call (other 9) plain old_tab) { authorization = bearer_null }) ∷ [])
api_fetch-bearer_null_example =
    api_fetch-bearer_null strict (other 9) plain old_tab refused 4 granted_reply refl refl refl refl
      (λ e. omega (arith, e)) refl refl refl

-- 'a=b; XSRF-TOKEN=z'
abbrev first_cookie : Cookie
first_cookie = record { name = b'a' ∷ []; value = b'b' ∷ [] }

abbrev csrf_cookie : Cookie
csrf_cookie = record {
  name = b'X' ∷ b'S' ∷ b'R' ∷ b'F' ∷ b'-' ∷ b'T' ∷ b'O' ∷ b'K' ∷ b'E' ∷ b'N' ∷ [];
  value = b'z' ∷ [];
}

get_csrf_token-render_example :
    get_csrf_token (render first_cookie (csrf_cookie ∷ [])) ≡ some (b'z' ∷ [])
get_csrf_token-render_example =
    get_csrf_token-render first_cookie (csrf_cookie ∷ [])
      ((refl, tt), (refl, tt), (refl, tt), (refl, tt))
      (
        (
          (refl, (refl, (refl, (refl, (refl, (refl, (refl, (refl, (refl, (refl, tt)))))))))),
          (refl, (refl, (refl, (refl, (refl, (refl, (refl, (refl, (refl, (refl, tt)))))))))),
          (refl, tt),
          (refl, tt),
        ),
        tt,
      )

abbrev one_camera : MediaStream
one_camera = record {
  audio_tracks = [];
  video_tracks = record { enabled = true; stopped = false } ∷ [];
}

abbrev filming : Devices
filming = opened true true (granted 1 one_camera) (start_media untouched)

stop_media-IsStopped_example :
    ((k : ℕ) → IsStoppedAt (lookup k (stop_media filming).streams))
    × ((video audio : Bool) (id : ℕ) (s : MediaStream)
        → lookup id (opened video audio (granted id s) (stop_media filming)).streams ≡ some s)
stop_media-IsStopped_example =
    stop_media-IsStopped false filming
      (answers true true (granted 1 one_camera) (start_media untouched) (starts untouched first))

-- The caller has made its offer, which is under way.
abbrev offering_call : Line
offering_call = from_caller (offer_effect 1 (accepted_call 5).caller) (accepted_call 5)

abbrev somebody : Partner
somebody = record { call_id = 5; is_initiator = true; partner_user_id = none }

run-IsCoherent_example : IsCoherent (run (found somebody) new_page).1
run-IsCoherent_example = run-IsCoherent (found somebody) new_page (refl, refl, refl)

run-quiet_example :
    (exists_where is_join (run (renders true) (record new_page { queued = true })).0 ≡ false)
    × ((run (renders true) (record new_page { queued = true })).1.queued ≡ true)
run-quiet_example = run-quiet (renders true) (record new_page { queued = true }) refl refl
