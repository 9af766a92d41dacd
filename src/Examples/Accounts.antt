-- ===== src/Examples/Accounts.antt =====
-- webrtc-server/pkg/handler: a bot that is made, and logs in, after the login of `ann`.
use webrtc_chat.Prelude.{true, ◌≡◌, refl, inr, none, some, [], ◌∷◌, done}
use webrtc_chat.Map
use webrtc_chat.Map.{Map}
use webrtc_chat.Payloads.{AuthenticationType}
use webrtc_chat.User.{UserCreationPayload, Memory}
use webrtc_chat.User.Manager.{by_username, by_id, user_of_payload}
use webrtc_chat.User.Requests.{Appended}
use webrtc_chat.Ws.Login.{get_logged_in_as}
use webrtc_chat.Http.{token_body, content_type}
use webrtc_chat.Web.Token.{Jwt, issue, user_id_from_jwt, agent_header}
use webrtc_chat.Web.Bots.{
  BotRequest, Trusted, handle_add_bot, parse_user_creation_payload, bot_logs_in,
}
use webrtc_chat.Examples.Users.{with_ann, ann-IsValid, ann-Free}

-- Tokens that are their subject.
abbrev jwt : Jwt
jwt = record {
  signed_string = λ secret claims. some claims.subject;
  parse_with_claims =
      λ secret now t. some (true, record { subject = t; issued_at = 0; expires_at = 0 });
}

jwt-Trusted : Trusted jwt "key"
jwt-Trusted claims t now signed early =
    (record { subject = t; issued_at = 0; expires_at = 0 }, refl, cc signed)

abbrev robo : UserCreationPayload
robo = record { username = "robo"; display_name = "Robo"; avatar_url = "" }

abbrev new_bot : BotRequest
new_bot = record {
  path = "/bots/add";
  method = "POST";
  content_type_header = "application/json";
  media_type = "application/json";
  json = inr robo;
  form_value = λ k. "";
}

new_bot-parses : parse_user_creation_payload new_bot ≡ inr robo
unfolding parse_user_creation_payload
new_bot-parses = refl

robo-issued : issue jwt "key" 1000 "u9" ≡ some "u9"
unfolding issue
robo-issued = refl

bot_logs_in_example :
    let bot = user_of_payload "u9" robo true in
    (mem' : Memory) × (handle_add_bot jwt "key" 1000 "u9" [] new_bot with_ann
      ≡ done (content_type "application/json" ∷ token_body "u9" ∷ [], mem'))
    × Appended bot with_ann mem'
    × (get_logged_in_as (user_id_from_jwt jwt "key" 2000 (agent_header "u9")) none Map.empty mem'
        ≡ done (some bot, AuthenticationType.jwt))
bot_logs_in_example =
    bot_logs_in jwt "key" 1000 2000 "u9" new_bot with_ann robo "u9" none Map.empty jwt-Trusted
      ann-IsValid (ann-Free by_id "u9" refl) refl new_bot-parses refl
      (ann-Free by_username "robo" refl) robo-issued refl refl
