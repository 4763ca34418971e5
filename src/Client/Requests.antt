-- ===== src/Client/Requests.antt =====
-- How many requests one call of `apiFetch` makes, and which.
use video_calling.Base.{
  ℕ, ◌≡◌, ◌⊎◌, inl, inr, refl, ap, sym, subst, ◌∙◌, arith, Bool, true, false, ◌&&◌, Option, none,
  some, List, [], ◌∷◌, ◌++◌, ◌==◌, Bool-cases,
}
use video_calling.Client.{Endpoint, HttpCall, Authorization, Response, Server, Tab}
use video_calling.Client.Api.{
  FetchOptions, refresh_call, first_call, retried, retry_authorization, get_access_token,
  is_retried, with_answer, send, refresh_with, retry, after_first, refresh_auth_token, api_fetch,
}

-- The requests that one call adds to those before.
pub data IsTrace (call : HttpCall) (before : List HttpCall) : List HttpCall → Type 0 where
  alone : IsTrace call before (before ++ call ∷ [])
  renewed : (token : ℕ) → IsTrace call before ((before ++ call ∷ []) ++ refresh_call token ∷ [])
  repeated :
      (token : ℕ) (authorization : Authorization)
      → IsTrace call before (
          ((before ++ call ∷ []) ++ refresh_call token ∷ [])
          ++ (record call { authorization = authorization }) ∷ [])

with_answer-sent :
    (answer : Option Response) (tab : Tab) → (with_answer answer tab).1.sent ≡ tab.sent
with_answer-sent none tab = refl
with_answer-sent (some res) tab = ground arith

-- A refresh sends one request, or none and fails.
refresh-sent :
    (server : Server) (token : Option ℕ) (tab : Tab)
    → ((refresh_with server token tab).0 ≡ false)
        × ((refresh_with server token tab).1.sent ≡ tab.sent)
      ⊎ ((t : ℕ) × ((refresh_with server token tab).1.sent ≡ tab.sent ++ refresh_call t ∷ []))
refresh-sent server none tab = inl (refl, refl)
refresh-sent server (some token) tab = elim (Bool-cases (token == 0)) [
  | inl e ↦ inl (rw e (refl, refl))
  | inr e ↦ inr (
    token,
    rw e (
        with_answer-sent (server (tab.sent ++ refresh_call token ∷ []))
          (send (refresh_call token) tab)),
  )
]

retry-IsTrace :
    (server : Server) (call : HttpCall) (response : Response) (before : List HttpCall) (tab : Tab)
    (r : Bool × Tab)
    → tab.sent ≡ before ++ call ∷ []
    → ((r.0 ≡ false) × (r.1.sent ≡ tab.sent))
      ⊎ ((t : ℕ) × (r.1.sent ≡ tab.sent ++ refresh_call t ∷ []))
    → IsTrace call before (retry server call response r).1.sent
retry-IsTrace server call response before tab (true, t) e (inl (fails, _)) = absurd (cc)
retry-IsTrace server call response before tab (true, t) e (inr (token, sent)) =
    subst (λ xs. IsTrace call before (xs ++ retried call t ∷ []))
      (sym (sent ∙ ap (λ xs. xs ++ refresh_call token ∷ []) e))
      (repeated token (retry_authorization (get_access_token t)))
retry-IsTrace server call response before tab (false, t) e (inl (_, sent)) =
    subst (IsTrace call before) (sym (sent ∙ e)) alone
retry-IsTrace server call response before tab (false, t) e (inr (token, sent)) =
    subst (IsTrace call before) (sym (sent ∙ ap (λ xs. xs ++ refresh_call token ∷ []) e))
      (renewed token)

after_first-IsTrace :
    (server : Server) (call : HttpCall) (answer : Option Response) (before : List HttpCall)
    (tab : Tab)
    → tab.sent ≡ before ++ call ∷ []
    → IsTrace call before (after_first server call answer tab).1.sent
unfolding refresh_auth_token
after_first-IsTrace server call none before tab e = subst (IsTrace call before) (sym e) alone
after_first-IsTrace server call (some response) before tab e =
    elim (Bool-cases (response.status == 401 && is_retried call.endpoint)) [
      | inl again ↦ rw again (
          retry-IsTrace server call response before tab (refresh_with server tab.stored_refresh tab)
            e (refresh-sent server tab.stored_refresh tab))
      | inr done ↦ rw done (subst (IsTrace call before) (sym e) alone)
    ]

-- Whatever the server answers, one call of `apiFetch` sends the request, then at most one request
-- for new tokens, and then at most once the same request again with another access token. It never
-- sends more, so it ends.
pub api_fetch-IsTrace :
    (server : Server) (endpoint : Endpoint) (options : FetchOptions) (tab : Tab)
    → IsTrace
        (first_call endpoint options tab)
        tab.sent
        (api_fetch server endpoint options tab).1.sent
unfolding api_fetch
api_fetch-IsTrace server endpoint options tab =
    let call = first_call endpoint options tab in
    after_first-IsTrace server call (server (tab.sent ++ call ∷ [])) tab.sent (send call tab) refl

-- The requests that sign in and renew the tokens are never repeated.
pub api_fetch-once :
    (server : Server) (endpoint : Endpoint) (options : FetchOptions) (tab : Tab)
    → is_retried endpoint ≡ false
    → (api_fetch server endpoint options tab).1 ≡ send (first_call endpoint options tab) tab
unfolding api_fetch
api_fetch-once server endpoint options tab h =
    once (server (tab.sent ++ first_call endpoint options tab ∷ []))
  where
    once :
        (answer : Option Response)
        → (after_first server
            (first_call endpoint options tab)
            answer
            (send (first_call endpoint options tab) tab)).1
          ≡ send (first_call endpoint options tab) tab
    once none = refl
    once (some response) = ground (arith, h)
