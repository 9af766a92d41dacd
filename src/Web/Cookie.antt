-- ===== src/Web/Cookie.antt =====
-- webrtc-server/pkg/session/cookie.go and webrtc-server/pkg/handler/handle_session.go: the session of
-- a request. A request has the value of its cookie `session_id`, if it has one. `new_id` is the text
-- that uuid.NewString would return.
use webrtc_chat.Prelude.{
  String, Bool, false, ◌≡◌, refl, ◌∙◌, ap, Option, none, some, ◌⊎◌, inl, inr, ◌==◌, eq_refl,
  is_some, if◌then◌else◌, Bool-cases, Option-cases, arith,
}
use webrtc_chat.Map
use webrtc_chat.Map.{Map, get-put}

-- sessionStore is a set.
pub record CookieSessionManager : Type 0 where
  pub session_store : Map (Unit {0})
  pub cookie_domain : String
  pub cookie_same_site : String
  pub cookie_secure : String

-- http.SameSite; `unset` is its zero value.
pub data SameSite : Type 0 where
  unset default_mode lax_mode strict_mode none_mode : SameSite

-- The cookie that is set, with the name session_id, the path / and HttpOnly.
pub record SessionCookie : Type 0 where
  pub value : String
  pub domain : String
  pub same_site : SameSite
  pub secure : Bool

unfoldable pub get_session_id : CookieSessionManager → Option String → String
get_session_id m none = ""
get_session_id m (some value) = if is_some (Map.get m.session_store value) then value else ""

unfoldable pub same_site_of : String → SameSite
same_site_of s =
    if s == ""
    then unset
    else if s == "None"
    then none_mode
    else if s == "Lax"
    then lax_mode
    else if s == "Strict"
    then strict_mode
    else default_mode

unfoldable pub create_session :
    CookieSessionManager → String → String × CookieSessionManager × SessionCookie
unfolding same_site_of
create_session m new_id = (
  new_id,
  record m { session_store = Map.put m.session_store new_id tt },
  record {
    value = new_id;
    domain = m.cookie_domain;
    same_site = same_site_of m.cookie_same_site;
    secure = m.cookie_secure == "true";
  },
)

-- What SessionHandler does before the handler that it wraps: the session id for the context, and the
-- cookie that it sets, if any.
unfoldable pub session_handler :
    CookieSessionManager
    → String
    → Option String
    → String × CookieSessionManager × Option SessionCookie
unfolding get_session_id create_session
session_handler m new_id cookie =
    let session_id = get_session_id m cookie in
    let (made, m', set) = create_session m new_id in
    if session_id == "" then (made, m', some set) else (session_id, m, none)

-- The cookie that the browser sends next: the one that was set, or else the one that it had.
abbrev pub next_cookie : Option String → Option SessionCookie → Option String
next_cookie cookie none = cookie
next_cookie cookie (some set) = some set.value

known :
    (m : CookieSessionManager) (cookie : Option String)
    → (get_session_id m cookie == "") ≡ false
    → (value : String) × (cookie ≡ some value)
      × (Map.get m.session_store value ≡ some tt)
      × (get_session_id m cookie ≡ value)
      × ((value == "") ≡ false)
unfolding get_session_id
known m none h = absurd (cc h)
known m (some value) h = elim (Option-cases (Map.get m.session_store value)) [
  | inl e ↦ absurd (cc (rw e at h))
  | inr (u, e) ↦ (value, refl, e, rw e refl, rw e at h)
]

stays :
    (m : CookieSessionManager) (other_id value : String)
    → (value == "") ≡ false
    → Map.get m.session_store value ≡ some tt
    → session_handler m other_id (some value) ≡ (value, m, none)
unfolding session_handler get_session_id
stays m other_id value filled stored = ground arith

-- A request's session id is its cookie's value, if the server made that, and otherwise a new one,
-- which is not empty: a value that a client makes up is never taken. The next request, with the
-- cookie that the browser has then, has the same session, and sets no cookie.
pub session_handler_lem :
    (m : CookieSessionManager) (new_id other_id : String) (cookie : Option String)
    → (new_id == "") ≡ false
    → let (session_id, m', set) = session_handler m new_id cookie in
      (((session_id ≡ new_id) × (Map.get m'.session_store new_id ≡ some tt))
        ⊎ ((cookie ≡ some session_id) × (m' ≡ m) × (Map.get m.session_store session_id ≡ some tt)))
      × (session_handler m' other_id (next_cookie cookie set) ≡ (session_id, m', none))
unfolding session_handler create_session
session_handler_lem m new_id other_id cookie filled =
    elim (Bool-cases (get_session_id m cookie == "")) [
      | inl unknown ↦
          let m' = record m { session_store = Map.put m.session_store new_id tt } in
          let stored : Map.get m'.session_store new_id ≡ some tt =
            get-put m.session_store new_id new_id tt ∙ rw (eq_refl new_id) refl in
          rw unknown (inl (refl, stored), stays m' other_id new_id filled stored)
      | inr kept ↦
          let (value, is_value, stored, same, filled_value) = known m cookie kept in
          let ran : session_handler m new_id cookie ≡ (value, m, none) =
            rw kept (ap (λ (v : String). (v, m, none)) same) in
          rw ran (
            inr (is_value, refl, stored),
            ap (session_handler m other_id) is_value ∙ stays m other_id value filled_value stored,
          )
    ]
