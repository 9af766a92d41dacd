-- ===== src/Agent/Main/Startup.antt =====
-- webrtc-agents/cmd/agents/main.go: which bots a start leaves running, and the roots that they trust.
use mathlib.Core.Path.{subst}
use Prim.Native.String.{◌++◌ as str_append}
use webrtc_chat.Prelude.{
  String, true, false, ◌≡◌, refl, sym, none, some, List, [], ◌∷◌, ◌++◌, ◌⊎◌, inl, inr, ◌==◌,
  Bool-cases, Option-cases, Sum-cases, eq_iff,
}
use webrtc_chat.Agent.Reconnect.{WebSocketRunner}
use webrtc_chat.Agent.TrackBot.Generators.{new_track_dc_handler}
use webrtc_chat.Agent.Main.{
  Cli, Host, waiting, fatal, Process, run_steps, runner_of, chat_bot_error, bots_env_error,
  main_steps, main,
}

abbrev pub echo_bot : Cli → WebSocketRunner
echo_bot cli = runner_of cli "EchoBot" "ECHOBOT_JWT_TOKEN"

abbrev pub other_bots : Cli → List WebSocketRunner
other_bots cli =
    runner_of cli "MusicBot" "MUSICBOT_JWT_TOKEN"
    ∷ runner_of cli "CounterBot" "COUNTERBOT_JWT_TOKEN"
    ∷ runner_of cli "ClockBot" "CLOCKBOT_JWT_TOKEN"
    ∷ []

module _ {E G : Type 0} (host : Host E G) (cli : Cli) where
  abbrev pub EnvLoads : Type 0
  EnvLoads = ((cli.bots_env_file == "") ≡ true) ⊎ (host.load_env cli.bots_env_file ≡ none)

  -- How a start ends: each way with what has failed, and what before it has not.
  pub data Started : Process → Type 0 where
    no_env :
        {e : String}
        → (cli.bots_env_file == "") ≡ false
        → host.load_env cli.bots_env_file ≡ some e
        → Started (record {
          started = [];
          exit =
              fatal (
                str_append (str_append "Failed to load env " (str_append cli.bots_env_file " ")) e);
        })
    no_url :
        {e : String}
        → EnvLoads
        → host.parse_url cli.ws_server ≡ some e
        → Started
            (record { started = []; exit = fatal (str_append "Failed to parse WebSocket URL:" e) })
    no_codec :
        {e : String}
        → EnvLoads
        → host.parse_url cli.ws_server ≡ none
        → host.register_codec ≡ some e
        → Started (record {
          started = echo_bot cli ∷ [];
          exit = fatal (str_append "Failed to register Opus codec: " e);
        })
    no_tracks :
        {e : String}
        → EnvLoads
        → host.parse_url cli.ws_server ≡ none
        → host.register_codec ≡ none
        → new_track_dc_handler host.makers cli.ogg_files ≡ inr e
        → Started (record {
          started = echo_bot cli ∷ [];
          exit = fatal (str_append "Failed to create track data channel handler: " e);
        })
    no_model :
        {gens : List (String × G)}
        → EnvLoads
        → host.parse_url cli.ws_server ≡ none
        → host.register_codec ≡ none
        → new_track_dc_handler host.makers cli.ogg_files ≡ inl gens
        → cli.chat_bot_model ≡ ""
        → Started (record {
          started = echo_bot cli ∷ other_bots cli;
          exit = fatal "Failed to create chat bot handler: model must be specified";
        })
    up :
        {gens : List (String × G)}
        → EnvLoads
        → host.parse_url cli.ws_server ≡ none
        → host.register_codec ≡ none
        → new_track_dc_handler host.makers cli.ogg_files ≡ inl gens
        → (cli.chat_bot_model == "") ≡ false
        → Started (record {
          started =
              echo_bot cli ∷ other_bots cli ++ runner_of cli "ChatBot" "CHATBOT_JWT_TOKEN" ∷ [];
          exit = waiting;
        })

  ends : {p : Process} → main host cli ≡ p → Started p → Started (main host cli)
  ends h s = subst Started (sym h) s

  env_cases :
      ((cli.bots_env_file == "") ≡ false)
        × ((e : String) × (host.load_env cli.bots_env_file ≡ some e))
      ⊎ EnvLoads × (bots_env_error host cli ≡ none)
  env_cases = elim (Bool-cases (cli.bots_env_file == "")) [
    | inl unnamed ↦ inr (inl unnamed, rw unnamed refl)
    | inr named ↦ elim (Option-cases (host.load_env cli.bots_env_file)) [
      | inl loaded ↦ inr (inr loaded, cc (named, loaded))
      | inr failed ↦ inl (named, failed)
    ]
  ]

  with_tracks :
      {gens : List (String × G)}
      → EnvLoads
      → bots_env_error host cli ≡ none
      → host.parse_url cli.ws_server ≡ none
      → host.register_codec ≡ none
      → new_track_dc_handler host.makers cli.ogg_files ≡ inl gens
      → Started (main host cli)
  unfolding main run_steps main_steps chat_bot_error
  with_tracks loads env url codec tracks = elim (Bool-cases (cli.chat_bot_model == "")) [
    | inl e ↦
        ends (rw (env, url, codec, tracks, e) refl)
          (no_model loads url codec tracks ((eq_iff cli.chat_bot_model "").0 e))
    | inr e ↦ ends (rw (env, url, codec, tracks, e) refl) (up loads url codec tracks e)
  ]

  with_url :
      EnvLoads
      → bots_env_error host cli ≡ none
      → host.parse_url cli.ws_server ≡ none
      → Started (main host cli)
  unfolding main run_steps main_steps
  with_url loads env url = elim (Option-cases host.register_codec) [
    | inr (e, c) ↦ ends (rw (env, url, c) refl) (no_codec loads url c)
    | inl c ↦ elim (Sum-cases (new_track_dc_handler host.makers cli.ogg_files)) [
      | inr (e, t) ↦ ends (rw (env, url, c, t) refl) (no_tracks loads url c t)
      | inl (gens, t) ↦ with_tracks loads env url c t
    ]
  ]

  -- Every start ends in the way that the first check to fail says: with no bot, if the file of the
  -- bots' secrets is named and cannot be loaded, or else the URL of the server cannot be parsed; with
  -- the echo bot only, if these pass and the codec or the generators of the music bot cannot be made;
  -- with the four bots before the chat bot, if all these pass and no model is given; or with all five
  -- and waiting, if all pass and a model is given. In all but the last the process is ended by
  -- log.Fatal with the error, and the bots that were started go with it.
  pub main-Started : Started (main host cli)
  unfolding main run_steps main_steps
  main-Started = elim env_cases [
    | inl (named, (e, failed)) ↦ ends (rw (named, failed) refl) (no_env named failed)
    | inr (loads, env) ↦ elim (Option-cases (host.parse_url cli.ws_server)) [
      | inr (e, u) ↦ ends (rw (env, u) refl) (no_url loads u)
      | inl u ↦ with_url loads env u
    ]
  ]
