-- ===== src/Auth/Bound.antt =====
-- webrtc-server/pkg/handler: which sessions a login request can log in.
use webrtc_chat.Prelude.{
  ℕ, String, true, false, ◌≡◌, refl, ◌∙◌, ap, Option, none, some, ◌⊎◌, inl, inr, Outcome, done,
  panic, ◌>>=◌, List, [], ◌∷◌, ◌++◌, ◌==◌, eq_iff, eq_refl, not, ◌&&◌, arith,
}
use webrtc_chat.Map
use webrtc_chat.Map.{get-put, get-remove}
use webrtc_chat.User.{Memory}
use webrtc_chat.Ws.Login.{log_in}
use webrtc_chat.Http.{Write, Request, Checked, pass, refuse}
use webrtc_chat.Auth.Nonces.{
  NonceState, get_session_id_by_nonce, get_initial_page_by_nonce, is_bound, create_nonce_for,
  expire,
}
use webrtc_chat.Auth.Retry.{
  Turn, Loaded, loaded, store_failed, given_up, unfinished, Logins, finish,
}
use webrtc_chat.Auth.Github
use webrtc_chat.Auth.Github.{
  GithubOauthLoginHandler, Github, check_request, take_token, take_profile, with_token,
  log_profile_in, get_github_token_endpoint, invalid_nonce,
}

is_bound-some :
    (nonces : Map.Map NonceState) (nonce j : String) (state : NonceState)
    → Map.get nonces nonce ≡ some state
    → (state.session_id == "") ≡ false
    → (is_bound nonces nonce j ≡ (state.session_id == j))
      × (get_initial_page_by_nonce nonces nonce ≡ state.current_page)
unfolding is_bound get_session_id_by_nonce get_initial_page_by_nonce
is_bound-some nonces nonce j state e filled = ground arith

pub is_bound-none :
    (nonces : Map.Map NonceState) (nonce j : String)
    → Map.get nonces nonce ≡ none
    → is_bound nonces nonce j ≡ false
unfolding is_bound get_session_id_by_nonce
is_bound-none nonces nonce j e =
    let unbound : get_session_id_by_nonce nonces nonce ≡ "" =
      rw (e, get_session_id_by_nonce) refl in
    ap (λ s. not (s == "") && s == j) unbound

-- For as long as a nonce is kept it is bound to the session that it was made for, unless that has an
-- empty id, and to no other, and it leads back to the page; then it is bound to none. Other nonces
-- are not touched.
pub nonce_lifecycle :
    (nonce session_id page : String) (nonces : Map.Map NonceState)
    → (session_id == "") ≡ false
    → let made = create_nonce_for nonce session_id page nonces in
      ((j : String) → is_bound made nonce j ≡ (session_id == j))
      × (get_initial_page_by_nonce made nonce ≡ page)
      × ((j : String) → is_bound (expire nonce made) nonce j ≡ false)
      × ((other : String)
          → (nonce == other) ≡ false
          → (Map.get made other ≡ Map.get nonces other)
            × (Map.get (expire nonce made) other ≡ Map.get nonces other))
unfolding create_nonce_for expire
nonce_lifecycle nonce session_id page nonces filled =
    let state : NonceState = record { session_id = session_id; current_page = page } in
    let made = Map.put nonces nonce state in
    let here : Map.get made nonce ≡ some state =
      get-put nonces nonce nonce state ∙ rw (eq_refl nonce) refl in
    let gone : Map.get (Map.remove made nonce) nonce ≡ none =
      get-remove made nonce nonce ∙ rw (eq_refl nonce) refl in
    (
      (λ j. (is_bound-some made nonce j state here filled).0),
      (is_bound-some made nonce "" state here filled).1,
      (λ j. is_bound-none (Map.remove made nonce) nonce j gone),
      (λ other apart.
          let kept : Map.get made other ≡ Map.get nonces other =
            get-put nonces nonce other state ∙ rw apart refl in
          (kept, get-remove made nonce other ∙ rw apart kept)),
    )

-- A request may log in the one session that its nonce is bound to, and leaves the nonces.
abbrev pub LogsOnly : Option String → String → Logins → Logins → Type 0
LogsOnly session nonce s s' =
    (s'.nonces ≡ s.nonces)
    × ((s'.sessions ≡ s.sessions)
        ⊎ ((session_id : String) × (user_id : String) × (session ≡ some session_id)
            × (get_session_id_by_nonce s.nonces nonce ≡ session_id)
            × ((session_id == "") ≡ false)
            × (s'.sessions ≡ log_in s.sessions user_id session_id)))

check_request-pass :
    (r : Request) (s : Logins) {session_id : String}
    → check_request r s ≡ pass session_id
    → (r.session_id ≡ some session_id) × (is_bound s.nonces (r.query "state") session_id ≡ true)
unfolding check_request
check_request-pass r s h = ground arith

is_bound-true :
    (nonces : Map.Map NonceState) (nonce session_id : String)
    → is_bound nonces nonce session_id ≡ true
    → (get_session_id_by_nonce nonces nonce ≡ session_id) × ((session_id == "") ≡ false)
unfolding is_bound
is_bound-true nonces nonce session_id h =
    ground (arith, eq_iff (get_session_id_by_nonce nonces nonce) session_id)

finish-LogsOnly :
    (session_id page url : String) (s : Logins) (l : Loaded × Memory)
    → let s' = (finish session_id page url s l).1 in
      (s'.nonces ≡ s.nonces)
      × ((s'.sessions ≡ s.sessions)
          ⊎ ((user_id : String) × (s'.sessions ≡ log_in s.sessions user_id session_id)))
unfolding finish
finish-LogsOnly session_id page url s (loaded u, mem) = (refl, inr (u.id, refl))
finish-LogsOnly session_id page url s (store_failed, mem) = (refl, inl refl)
finish-LogsOnly session_id page url s (given_up, mem) = (refl, inl refl)
finish-LogsOnly session_id page url s (unfinished, mem) = (refl, inl refl)

Checked-cases :
    {A : Type 0} (m : Checked A) → ((w : List Write) × (m ≡ refuse w)) ⊎ ((a : A) × (m ≡ pass a))
Checked-cases (refuse w) = inl (w, refl)
Checked-cases (pass a) = inr (a, refl)

-- What is left of a request after the checks: nothing but its session can be logged in.
OfSession : String → Logins → Outcome (List Write × Logins) → Type 0
OfSession session_id s r =
    (w : List Write) (s' : Logins)
    → r ≡ done (w, s')
    → (s'.nonces ≡ s.nonces)
      × ((s'.sessions ≡ s.sessions)
          ⊎ ((user_id : String) × (s'.sessions ≡ log_in s.sessions user_id session_id)))

done-OfSession :
    (session_id : String) (s : Logins) (x : List Write × Logins)
    → (x.1.nonces ≡ s.nonces)
      × ((x.1.sessions ≡ s.sessions)
          ⊎ ((user_id : String) × (x.1.sessions ≡ log_in s.sessions user_id session_id)))
    → OfSession session_id s (done x)
unfolding OfSession
done-OfSession session_id s (w', s'') h w s' e = let same : s'' ≡ s' = cc in rw (← same) h

bind-OfSession :
    {A : Type 0} (session_id : String) (s : Logins) (m : Outcome A) (f : A → List Write × Logins)
    → ((a : A) → OfSession session_id s (done (f a)))
    → OfSession session_id s (m >>= λ a. done (f a))
unfolding OfSession
bind-OfSession session_id s (done a) f h w s' e = h a w s' e
bind-OfSession session_id s (panic x) f h w s' e = absurd (cc)

with_token-OfSession :
    (h : GithubOauthLoginHandler) (github : Github) (turns : ℕ → Turn) (r : Request)
    (session_id t : String) (s : Logins)
    → OfSession session_id s (with_token h github turns r session_id t s)
unfolding with_token log_profile_in
with_token-OfSession h github turns r session_id t s =
    elim (Checked-cases (take_profile (github.profile_of t))) [
      | inl (w, e) ↦ rw e (done-OfSession session_id s _ (refl, inl refl))
      | inr (p, e) ↦
          let page = get_initial_page_by_nonce s.nonces (r.query "state") in
          let s₁ = record s { revoked = s.revoked ++ t ∷ [] } in
          rw e (
            bind-OfSession session_id s _ (finish session_id page h.login_success_redirect_url s₁)
              (λ l.
                done-OfSession session_id s
                  (finish session_id page h.login_success_redirect_url s₁ l)
                  (finish-LogsOnly session_id page h.login_success_redirect_url s₁ l)))
    ]

-- A request that handleAuthorizationCode of the GitHub login answers leaves the nonces, and changes
-- the session store at most at its own session id, which is not empty and which the nonce of its
-- `state` was made for.
pub github_login-LogsOnly :
    (h : GithubOauthLoginHandler) (github : Github) (turns : ℕ → Turn) (r : Request) (s s' : Logins)
    (w : List Write)
    → Github.handle_authorization_code h github turns r s ≡ done (w, s')
    → LogsOnly r.session_id (r.query "state") s s'
unfolding Github.handle_authorization_code OfSession
github_login-LogsOnly h github turns r s s' w ran = elim (Checked-cases (check_request r s)) [
  | inl (refused, e) ↦ let same : s ≡ s' = cc (rw e at ran) in rw (← same) (refl, inl refl)
  | inr (session_id, e) ↦
      let (own, bound) = check_request-pass r s e in
      let (made_for, filled) = is_bound-true s.nonces (r.query "state") session_id bound in
      elim (Checked-cases
        (take_token h (github.exchange (get_github_token_endpoint h) (r.query "code")))) [
          | inl (refused, f) ↦
              let same : s ≡ s' = cc (rw (e, f) at ran) in rw (← same) (refl, inl refl)
          | inr (t, f) ↦
              let (nonces, sessions) =
                with_token-OfSession h github turns r session_id t s w s' (rw (e, f) at ran) in
              (
                nonces,
                elim sessions [
                  | inl unchanged ↦ inl unchanged
                  | inr (user_id, logged) ↦ inr (session_id, user_id, own, made_for, filled, logged)
                ],
              )
        ]
]
