-- ===== src/Agent/TrackBot/Generators.antt =====
-- webrtc-agents/pkg/handlers/track_dc_handler.go, NewTrackDCHandler: the generators that the track bot
-- starts with. The Opus encoder `E` and the generators `G` are parameters, and an error is its text.
use webrtc_chat.Prelude.{String, List, [], ◌∷◌, Option, ◌⊎◌, inl}
use webrtc_chat.Fallible.{◌>>=◌, labelled}
use webrtc_chat.Agent.TrackBot.{OggTrack, load_ogg_files}

pub record Makers (E G : Type 0) : Type 0 where
  pub new_encoder : E ⊎ String
  -- NewOpusSineWaveformGenerator, of a name, with its frequency as text
  pub new_sine : E → String → String → G ⊎ String
  -- NewOpusWhiteNoiseGenerator
  pub new_white_noise : E → String → G ⊎ String
  -- NewOggFileGenerator
  pub open_file : String → Option (OggTrack G)

abbrev pub built_in : {G : Type 0} → G → G → G → List (String × G)
built_in c4 a4 noise = ("C4", c4) ∷ ("A4", a4) ∷ ("WhiteNoise", noise) ∷ []

-- The generators by name, or the error.
unfoldable pub new_track_dc_handler :
    {E G : Type 0} → Makers E G → List String → List (String × G) ⊎ String
unfolding load_ogg_files
new_track_dc_handler m ogg_files = do
  enc ← labelled "failed to create opus encoder: " m.new_encoder
  c4 ← labelled "failed to create C4 generator: " (m.new_sine enc "C4" "261.63")
  a4 ← labelled "failed to create A4 generator: " (m.new_sine enc "A4" "440.0")
  noise ← labelled "failed to create WhiteNoise generator: " (m.new_white_noise enc "WhiteNoise")
  inl (load_ogg_files m.open_file ogg_files (built_in c4 a4 noise))
