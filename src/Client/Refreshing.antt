-- ===== src/Client/Refreshing.antt =====
-- What `refreshAuthToken` leaves in the tab, and what it makes of the answers of this server.
use video_calling.Base.{
  List, ℕ, ◌≡◌, ◌≢◌, inl, inr, refl, ap, sym, ◌∙◌, arith, Bool, true, false, ◌&&◌, Option, none,
  some, [], ◌∷◌, ◌++◌, ◌==◌, Option-cases, Bool-cases, non_empty, truthy_option, is_some,
}
use video_calling.Contacts.{ListedContact}
use video_calling.Web.{Reply, Body, no_body, envelope, failure, Answer, tokens}
use video_calling.Client.{
  Endpoint, HttpCall, bearer_null, Tokens, Json, Response, is_ok, Server, Tab,
}
use video_calling.Client.Api.{
  FetchOptions, refresh_call, first_call, get_access_token, is_retried, keep_tokens, send,
  with_answer, refresh_with, retry, refresh_auth_token, api_fetch,
}

abbrev pub no_tokens : Tokens
no_tokens = record { access_token = none; refresh_token = none }

-- The fields that the client reads of a body of the server: none of them is at the top level.
abbrev pub answer_tokens : Answer → Tokens
answer_tokens (tokens t) = record {
  access_token = some t.access_token;
  refresh_token = some t.refresh_token;
}
answer_tokens _ = no_tokens

abbrev pub answer_contacts : Answer → Option (List ListedContact)
answer_contacts (Answer.contacts listed) = some listed
answer_contacts _ = none

-- `res.json()` of a body: nothing is no JSON.
abbrev pub read_body : Body → Option Json
read_body no_body = none
read_body (envelope success answer) = some (record {
  top = no_tokens;
  fields = some (answer_tokens answer);
  listed = answer_contacts answer;
})
read_body (failure e) = some (record { top = no_tokens; fields = none; listed = none })

abbrev pub response_of : Reply → Response
response_of reply = record { status = reply.status; json = read_body reply.body }

-- The tab has no token any more.
abbrev pub IsTokenless : Tab → Type 0
IsTokenless tab = (get_access_token tab ≡ none) × (tab.stored_refresh ≡ none)

-- What was sent with a refresh token, and the answer.
abbrev pub refresh_answer : Server → (token : ℕ) → Tab → Option Response
refresh_answer server token tab = server (tab.sent ++ refresh_call token ∷ [])

refresh_with-kept :
    (server : Server) (token : ℕ) (tab : Tab) (res : Response) (json : Json)
    → token ≢ 0
    → refresh_answer server token tab ≡ some res
    → is_ok res ≡ true
    → res.json ≡ some json
    → refresh_with server (some token) tab
      ≡ (true, keep_tokens json.top (send (refresh_call token) tab))
refresh_with-kept server token tab res json filled answer good body =
    let sent = send (refresh_call token) tab in
    let e : refresh_with server (some token) tab ≡ with_answer (some res) sent =
      ground (arith, answer, filled) in
    e ∙ rw (good, body) refl

with_answer-forgets :
    (answer : Option Response) (tab : Tab)
    → ((res : Response) (json : Json) → answer ≡ some res → is_ok res ≡ true → res.json ≢ some json)
    → ((with_answer answer tab).0 ≡ false) × IsTokenless (with_answer answer tab).1
with_answer-forgets none tab bad = (refl, (refl, refl))
with_answer-forgets (some res) tab bad = elim (Bool-cases (is_ok res)) [
  | inl good ↦ elim (Option-cases res.json) [
    | inl no_json ↦ rw (good, no_json) (refl, (refl, refl))
    | inr (json, body) ↦ absurd (bad res json refl good body)
  ]
  | inr refused ↦ rw refused (refl, (refl, refl))
]

refresh_with-forgets :
    (server : Server) (token : ℕ) (tab : Tab)
    → token ≢ 0
    → ((res : Response) (json : Json)
        → refresh_answer server token tab ≡ some res
        → is_ok res ≡ true
        → res.json ≢ some json)
    → ((refresh_with server (some token) tab).0 ≡ false)
      × IsTokenless (refresh_with server (some token) tab).1
refresh_with-forgets server token tab filled bad =
    let e : (token == 0) ≡ false = ground (arith, filled) in
    rw e (with_answer-forgets (refresh_answer server token tab) (send (refresh_call token) tab) bad)

refresh_of :
    (server : Server) (o : Option ℕ) (tab : Tab)
    → tab.stored_refresh ≡ o
    → refresh_auth_token server tab ≡ refresh_with server o tab
unfolding refresh_auth_token
refresh_of server o tab h = ap (λ x. refresh_with server x tab) h

-- Without a refresh token nothing is sent and nothing changes. With one, an answer that is ok and
-- is JSON replaces both tokens by its top-level fields, where a missing or empty one erases, and
-- reports success; every other outcome, a failing request among them, erases both and reports
-- failure.
pub refresh_auth_token-outcome :
    (server : Server) (tab : Tab)
    → ((truthy_option tab.stored_refresh ≡ false) → refresh_auth_token server tab ≡ (false, tab))
      × ((token : ℕ)
          → tab.stored_refresh ≡ some token
          → token ≢ 0
          → ((res : Response) (json : Json)
              → refresh_answer server token tab ≡ some res
              → is_ok res ≡ true
              → res.json ≡ some json
              → ((refresh_auth_token server tab).0 ≡ true)
                × ((refresh_auth_token server tab).1.stored_access
                    ≡ non_empty json.top.access_token)
                × ((refresh_auth_token server tab).1.stored_refresh
                    ≡ non_empty json.top.refresh_token))
            × (((res : Response) (json : Json)
                  → refresh_answer server token tab ≡ some res
                  → is_ok res ≡ true
                  → res.json ≢ some json)
                → ((refresh_auth_token server tab).0 ≡ false)
                  × IsTokenless (refresh_auth_token server tab).1))
refresh_auth_token-outcome server tab = (
  λ absent. refresh_of server tab.stored_refresh tab refl ∙ nothing tab.stored_refresh absent,
  λ token. λ held. λ filled. (
    λ res. λ json. λ answer. λ good. λ body.
        rw
          (refresh_of server (some token) tab held
            ∙ refresh_with-kept server token tab res json filled answer good body)
          (refl, refl, refl),
    λ bad.
        rw (refresh_of server (some token) tab held)
          (refresh_with-forgets server token tab filled bad),
  ),
)
  where
    nothing : (o : Option ℕ) → truthy_option o ≡ false → refresh_with server o tab ≡ (false, tab)
    nothing none h = refl
    nothing (some t) h = ground (arith, h)

top_of : Option Json → Tokens
top_of none = no_tokens
top_of (some json) = json.top

read_body-top : (body : Body) → top_of (read_body body) ≡ no_tokens
unfolding top_of
read_body-top no_body = refl
read_body-top (envelope success answer) = refl
read_body-top (failure e) = refl

-- The response interceptor of this server wraps the new tokens into `data`, and the client looks
-- for them at the top level: whatever reply of the server a refresh gets, both tokens are erased
-- from the tab, and for a reply of a status from 200 to 299 with a body success is reported.
pub refresh_auth_token-reply :
    (server : Server) (token : ℕ) (reply : Reply) (tab : Tab)
    → tab.stored_refresh ≡ some token
    → token ≢ 0
    → refresh_answer server token tab ≡ some (response_of reply)
    → IsTokenless (refresh_auth_token server tab).1
      × ((refresh_auth_token server tab).0
          ≡ (is_ok (response_of reply) && is_some (read_body reply.body)))
unfolding top_of
refresh_auth_token-reply server token reply tab held filled answer =
    let e : refresh_auth_token server tab
        ≡ with_answer (some (response_of reply)) (send (refresh_call token) tab) =
      refresh_of server (some token) tab held ∙ ground (arith, filled, answer) in
    rw e (elim (Bool-cases (is_ok (response_of reply))) [
      | inl good ↦ elim (Option-cases (read_body reply.body)) [
        | inl no_json ↦ rw (good, no_json) ((refl, refl), refl)
        | inr (json, body) ↦
            let top : json.top ≡ no_tokens = ap top_of (sym body) ∙ read_body-top reply.body in
            rw (good, body, top) ((refl, refl), refl)
      ]
      | inr refused ↦ rw refused ((refl, refl), refl)
    ])

retry-null :
    (server : Server) (call : HttpCall) (response : Response) (r : Bool × Tab)
    → r.0 ≡ true
    → get_access_token r.1 ≡ none
    → (retry server call response r).0
      ≡ server (r.1.sent ++ (record call { authorization = bearer_null }) ∷ [])
retry-null server call response (true, t) h gone = rw gone refl
retry-null server call response (false, t) h gone = absurd (cc)

-- So a request that gets 401 is sent again with `Bearer null` when this server has just granted the
-- tab new tokens, and its answer is what that gets.
pub api_fetch-bearer_null :
    (server : Server) (endpoint : Endpoint) (options : FetchOptions) (tab : Tab) (first : Response)
    (token : ℕ) (reply : Reply)
    → let call : HttpCall = first_call endpoint options tab in
      let again : HttpCall = record call { authorization = bearer_null } in
      let asked : Tab = send call tab in
      is_retried endpoint ≡ true
      → server asked.sent ≡ some first
      → (first.status == 401) ≡ true
      → tab.stored_refresh ≡ some token
      → token ≢ 0
      → refresh_answer server token asked ≡ some (response_of reply)
      → is_ok (response_of reply) ≡ true
      → is_some (read_body reply.body) ≡ true
      → (api_fetch server endpoint options tab).0
        ≡ server ((refresh_auth_token server asked).1.sent ++ again ∷ [])
unfolding api_fetch
api_fetch-bearer_null server endpoint options tab first token reply repeated answer unauthorized
      held filled renewal good body =
    let call : HttpCall = first_call endpoint options tab in
    let asked : Tab = send call tab in
    let (gone, granted) = refresh_auth_token-reply server token reply asked held filled renewal in
    let success : (refresh_auth_token server asked).0 ≡ true = granted ∙ rw (good, body) refl in
    rw (answer, unauthorized, repeated)
      (retry-null server call first (refresh_auth_token server asked) success gone.0)
