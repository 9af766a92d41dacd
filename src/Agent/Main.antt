-- ===== src/Agent/Main.antt =====
-- webrtc-agents/cmd/agents/main.go: how the agents start. What the command line, the files and the
-- network give is the parameter `Host`; log.Fatal ends the process, with the bots that it has started.
pub mod Startup
use Prim.Native.String.{◌++◌ as str_append}
use webrtc_chat.Prelude.{
  String, Bool, Option, none, some, List, [], ◌∷◌, ◌++◌, ◌⊎◌, inl, inr, ◌==◌, if◌then◌else◌,
}
use webrtc_chat.Agent.Reconnect.{WebSocketRunner}
use webrtc_chat.Agent.TrackBot.Generators.{Makers, new_track_dc_handler}

pub record Cli : Type 0 where
  pub ws_server : String
  pub custom_ca : List String
  pub reconnect_on_disconnect : Bool
  pub ogg_files : List String
  pub chat_bot_model : String
  pub custom_resolver : String
  pub bots_env_file : String

pub record Host (E G : Type 0) : Type 0 where
  -- net.SplitHostPort and net.JoinHostPort
  pub split_host_port : String → Option (String × String)
  pub join_host_port : String → String → String
  -- x509.SystemCertPool, and the certificates that AppendCertsFromPEM finds in a file
  pub system_cert_pool : Option (List String)
  pub read_file : String → Option String
  pub certs_of : String → List String
  -- the errors of godotenv.Load, url.Parse and RegisterCodec
  pub load_env : String → Option String
  pub parse_url : String → Option String
  pub register_codec : Option String
  pub makers : Makers E G

module _ {E G : Type 0} (host : Host E G) where
  -- getCustomResolver: the address of the resolver.
  unfoldable pub get_custom_resolver : Cli → Option String
  get_custom_resolver cli =
      if cli.custom_resolver == ""
      then none
      else some (elim (host.split_host_port cli.custom_resolver) [
        | none ↦ host.join_host_port cli.custom_resolver "53"
        | some (name, port) ↦ host.join_host_port name port
      ])

  -- The loop of getTLSConfig: a file that cannot be read, or has no certificate, adds none.
  unfoldable pub append_certs : List String → List String → List String
  append_certs pool [] = pool
  append_certs pool (file ∷ files) = elim (host.read_file file) [
    | none ↦ append_certs pool files
    | some data_of_file ↦ append_certs (pool ++ host.certs_of data_of_file) files
  ]

  abbrev pub base_pool : Option (List String) → List String
  base_pool none = []
  base_pool (some certs) = certs

  -- getTLSConfig: the roots, if the configuration is the agent's own.
  unfoldable pub get_tls_config : Cli → Option (List String)
  unfolding append_certs
  get_tls_config cli = elim cli.custom_ca [
    | [] ↦ none
    | file ∷ files ↦ some (append_certs (base_pool host.system_cert_pool) (file ∷ files))
  ]

-- The steps of main: a check that may be fatal, and a bot that is started.
pub data Step : Type 0 where
  check : Option String → Step
  start : WebSocketRunner → Step

-- Waiting for SIGINT, or ended by log.Fatal.
pub data Exit : Type 0 where
  waiting : Exit
  fatal : String → Exit

pub record Process : Type 0 where
  pub started : List WebSocketRunner
  pub exit : Exit

unfoldable pub run_steps : List WebSocketRunner → List Step → Process
run_steps started [] = record { started = started; exit = waiting }
run_steps started (check none ∷ steps) = run_steps started steps
run_steps started (check (some e) ∷ steps) = record { started = started; exit = fatal e }
run_steps started (start runner ∷ steps) = run_steps (started ++ runner ∷ []) steps

-- getWsRunnerByDerivedCfg
abbrev pub runner_of : Cli → String → String → WebSocketRunner
runner_of cli node_name jwt_env_name = record {
  node_name = node_name;
  jwt_env_name = jwt_env_name;
  reconnect_on_disconnect = cli.reconnect_on_disconnect;
}

-- The error of NewChatBotDCHandler; the generator is always given.
unfoldable pub chat_bot_error : String → Option String
chat_bot_error model = if model == "" then some "model must be specified" else none

abbrev labelled : String → Option String → Option String
labelled label none = none
labelled label (some e) = some (str_append label e)

abbrev error_of : {A : Type 0} → A ⊎ String → Option String
error_of (inl a) = none
error_of (inr e) = some e

module _ {E G : Type 0} (host : Host E G) (cli : Cli) where
  abbrev pub bots_env_error : Option String
  bots_env_error =
      if cli.bots_env_file == ""
      then none
      else labelled (str_append "Failed to load env " (str_append cli.bots_env_file " "))
          (host.load_env cli.bots_env_file)

  abbrev pub url_error : Option String
  url_error = labelled "Failed to parse WebSocket URL:" (host.parse_url cli.ws_server)

  abbrev pub codec_error : Option String
  codec_error = labelled "Failed to register Opus codec: " host.register_codec

  abbrev pub tracks_error : Option String
  tracks_error =
      labelled "Failed to create track data channel handler: "
        (error_of (new_track_dc_handler host.makers cli.ogg_files))

  abbrev pub model_error : Option String
  model_error = labelled "Failed to create chat bot handler: " (chat_bot_error cli.chat_bot_model)

  unfoldable pub main_steps : List Step
  unfolding new_track_dc_handler chat_bot_error
  main_steps =
      check bots_env_error
      ∷ check url_error
      ∷ start (runner_of cli "EchoBot" "ECHOBOT_JWT_TOKEN")
      ∷ check codec_error
      ∷ check tracks_error
      ∷ start (runner_of cli "MusicBot" "MUSICBOT_JWT_TOKEN")
      ∷ start (runner_of cli "CounterBot" "COUNTERBOT_JWT_TOKEN")
      ∷ start (runner_of cli "ClockBot" "CLOCKBOT_JWT_TOKEN")
      ∷ check model_error
      ∷ start (runner_of cli "ChatBot" "CHATBOT_JWT_TOKEN")
      ∷ []

  unfoldable pub main : Process
  unfolding run_steps main_steps
  main = run_steps [] main_steps
