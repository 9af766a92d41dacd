-- ===== src/Web/Profile/Sessions.antt =====
-- webrtc-server/pkg/handler/handle_profile.go: what the handlers tell a session of its user.
use webrtc_chat.Prelude.{
  ℕ, String, true, false, ◌≡◌, refl, Option, some, [], ◌∷◌, ◌⊎◌, inl, inr, done, ◌==◌, get_elem?,
  Bool-cases, Option-cases,
}
use webrtc_chat.Map.{Map}
use webrtc_chat.User.{User, Memory}
use webrtc_chat.User.Manager.{by_id}
use webrtc_chat.User.Store.{IsValid}
use webrtc_chat.User.Lookup.{published, get_user-Looked}
use webrtc_chat.Ws.Login.{get_user_id_by_session_id}
use webrtc_chat.Http.{Write, content_type, profile_body, status_body, fail, Request}
use webrtc_chat.Web.Profile.{
  Response, user_of_session, write_profile, serve_profile, serve_user_avatar, serve_avatar,
  status_of, serve_status,
}

abbrev pub json_type : Write
json_type = content_type "application/json"

module _ (decode : String → String ⊎ String) (fetch : String → Option Response) where
  -- The three handlers agree on the user of a session: it is a published user with the session's
  -- user id, or there is none.
  pub data Told (r : Request) (sessions : Map String) (mem : Memory) : Type 0 where
    known :
        (session_id : String) (n : ℕ) (u : User)
        → r.session_id ≡ some session_id
        → get_elem? (published mem) n ≡ some u
        → u.id ≡ get_user_id_by_session_id sessions session_id
        → serve_status r sessions mem ≡ done (status_body true ∷ [])
        → serve_profile r sessions mem
          ≡ done (json_type ∷ profile_body u.username u.display_name u.avatar_url ∷ [])
        → serve_avatar decode fetch r sessions mem
          ≡ done (json_type ∷ serve_user_avatar decode fetch (some u))
        → Told r sessions mem
    unknown :
        (code : ℕ) (text : String)
        → (code ≡ 400) ⊎ (code ≡ 401)
        → serve_status r sessions mem ≡ done (status_body false ∷ [])
        → serve_profile r sessions mem ≡ done (json_type ∷ fail code text)
        → serve_avatar decode fetch r sessions mem ≡ done (json_type ∷ fail code text)
        → Told r sessions mem

  -- In a well-formed memory, without a username in the query: the session is logged in for the status
  -- handler exactly when it has a user for the other two, who is a published user with the id of the
  -- session; otherwise both refuse with the same 400 or 401.
  pub session-Told :
      (r : Request) (sessions : Map String) (mem : Memory)
      → (r.query "username" == "") ≡ true
      → IsValid mem
      → Told r sessions mem
  unfolding serve_status serve_profile serve_avatar status_of user_of_session write_profile
      serve_user_avatar
  session-Told r sessions mem own v = elim (Option-cases r.session_id) [
    | inl no_session ↦
        unknown 400 "No session Id is found" (inl refl) (rw (no_session, serve_status) refl)
          (rw (own, no_session, serve_profile) refl) (rw (own, no_session, serve_avatar) refl)
    | inr (id, at) ↦ elim (Bool-cases (get_user_id_by_session_id sessions id == "")) [
      | inl nobody ↦
          unknown 401 "Unauthorized" (inr refl) (rw (at, nobody, serve_status) refl)
            (rw (own, at, nobody, serve_profile) refl) (rw (own, at, nobody, serve_avatar) refl)
      | inr somebody ↦ elim (get_user-Looked by_id (get_user_id_by_session_id sessions id) mem v) [
        | inl (looked, no_one) ↦
            unknown 401 "User didn't found" (inr refl)
              (rw (at, somebody, looked, serve_status) refl)
              (rw (own, at, somebody, looked, serve_profile) refl)
              (rw (own, at, somebody, looked, serve_avatar) refl)
        | inr (n, u, looked, there, same) ↦
            known id n u at there same (rw (at, somebody, looked, serve_status) refl)
              (rw (own, at, somebody, looked, serve_profile) refl)
              (rw (own, at, somebody, looked, serve_avatar) refl)
      ]
    ]
  ]
