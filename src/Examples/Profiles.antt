-- ===== src/Examples/Profiles.antt =====
-- webrtc-server/pkg/handler: requests for a profile after the login of `ann`, avatar URLs, and a
-- request to the counter.
use webrtc_chat.Prelude.{
  ℕ, ◌+◌, List, String, Option, ◌≡◌, refl, none, some, [], ◌∷◌, ◌⊎◌, inr, ◌==◌, if◌then◌else◌, done,
}
use webrtc_chat.Map
use webrtc_chat.Map.{Map}
use webrtc_chat.User.Manager.{get_user, do_add_user_by_github_id}
use webrtc_chat.Ws.Login.{log_in, get_user_id_by_session_id}
use webrtc_chat.Http.{Request, content_type, bytes, profile_body, fail}
use webrtc_chat.Web.Profile.{Response, serve_profile, write_avatar}
use webrtc_chat.Web.Profile.Avatar.{Avatar}
use webrtc_chat.Web.Profile.Sessions.{json_type, Told, session-Told}
use webrtc_chat.Web.Counter.{SwapsAt, text, serve_counter, serve_counter_lem}
use webrtc_chat.Examples.Users.{with_ann, ann-IsValid}

abbrev decode : String → String ⊎ String
decode b64 = inr b64

abbrev fetch : String → Option Response
fetch url = none

abbrev get : Request
get = record {
  path = "/profile";
  session_id = some "s1";
  query = λ key. if key == "theme" then "dark" else "";
}

abbrev sessions : Map String
sessions = log_in Map.empty "u1" "s1"

serve_profile-ann :
    serve_profile get sessions with_ann ≡ done (json_type ∷ profile_body "ann" "Ann" "" ∷ [])
unfolding serve_profile log_in Map.empty Map.put Map.get get_user_id_by_session_id get_user
    do_add_user_by_github_id
serve_profile-ann = refl

session-Told_example : Told decode fetch get sessions with_ann
session-Told_example = session-Told decode fetch get sessions with_ann refl ann-IsValid

write_avatar-png :
    write_avatar decode fetch "data:image/png;base64, iVBO "
    ≡ content_type "image/png" ∷ bytes "iVBO" ∷ []
unfolding write_avatar
write_avatar-png = refl

write_avatar-gif :
    write_avatar decode fetch "data:image/gif;base64,R0lG" ≡ fail 400 "unsupported MIME type"
unfolding write_avatar
write_avatar-gif = refl

-- Another request of the session comes between.
abbrev between : List (Map ℕ → Map ℕ)
between = (λ c. Map.put c "s1" 8) ∷ []

serve_counter-run :
    (serve_counter between (text "s1") (Map.put Map.empty "s1" 7)).0
    ≡ some (record { err = ""; session_id = "s1"; count = 8 })
unfolding serve_counter Map.get Map.put Map.empty
serve_counter-run = refl

serve_counter_lem_example :
    (at_swap : Map ℕ) × (v : ℕ) × SwapsAt "s1" between 0 (Map.put Map.empty "s1" 7) at_swap v
    × (Map.get at_swap "s1" ≡ some v)
    × (serve_counter between (text "s1") (Map.put Map.empty "s1" 7)
        ≡ (some (record { err = ""; session_id = "s1"; count = v }), Map.put at_swap "s1" (v + 1)))
serve_counter_lem_example = serve_counter_lem between "s1" (Map.put Map.empty "s1" 7)
