-- ===== src/Examples/Starts.antt =====
-- webrtc-agents/cmd/agents/main.go: the start that the README shows, where no .env.bots is.
use webrtc_chat.Prelude.{◌≡◌, refl, false, none, some, [], ◌∷◌, inl, ◌==◌, if◌then◌else◌, ℕ}
use webrtc_chat.Agent.Main.{Cli, Host, fatal, main, get_tls_config}
use webrtc_chat.Agent.Main.Startup.{Started, main-Started, echo_bot, other_bots}

-- What the flags --ws-server and --chatbot-model give, with the defaults of the others.
abbrev from_readme : Cli
from_readme = record {
  ws_server = "ws://localhost:3001/ws";
  custom_ca = [];
  reconnect_on_disconnect = false;
  ogg_files = [];
  chat_bot_model = "openai/gpt-4o-mini";
  custom_resolver = "";
  bots_env_file = ".env.bots";
}

abbrev checkout : Host ℕ ℕ
checkout = record {
  split_host_port = λ addr. none;
  join_host_port = λ name port. name;
  system_cert_pool = some ("root" ∷ []);
  read_file = λ path. if path == "ca.pem" then some "mine" else none;
  certs_of = λ text. text ∷ [];
  load_env = λ path. some "no such file or directory";
  parse_url = λ url. none;
  register_codec = none;
  makers = record {
    new_encoder = inl 0;
    new_sine = λ enc name freq. inl 1;
    new_white_noise = λ enc name. inl 2;
    open_file = λ path. none;
  };
}

main-Started_example : Started checkout from_readme (main checkout from_readme)
main-Started_example = main-Started checkout from_readme

readme_start :
    main checkout from_readme
    ≡ record { started = []; exit = fatal "Failed to load env .env.bots no such file or directory" }
unfolding main
readme_start = refl

no_model_start :
    main checkout (record from_readme { bots_env_file = ""; chat_bot_model = "" }) ≡ record {
      started = echo_bot from_readme ∷ other_bots from_readme;
      exit = fatal "Failed to create chat bot handler: model must be specified";
    }
unfolding main
no_model_start = refl

two_authorities :
    get_tls_config checkout (record from_readme { custom_ca = "lost.pem" ∷ "ca.pem" ∷ [] })
    ≡ some ("root" ∷ "mine" ∷ [])
unfolding get_tls_config
two_authorities = refl
