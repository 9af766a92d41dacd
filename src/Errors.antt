-- ===== src/Errors.antt =====
-- The errors that the server's packages return: the sentinel values of webrtc-server/pkg, and the
-- causes of those that `fmt.Errorf` formats, with what the text shows of them.
use webrtc_chat.Prelude.{String}

pub data Error : Type 0 where
  -- safemap.ErrMapClosed
  map_closed : Error
  -- user.ErrUsernameDuplicated
  username_duplicated : Error
  -- "connection from %s not found in registry"
  connection_not_found : String → Error
  -- what a WebSocket write, read or the JSON decoder returns
  write_failed : Error
  bad_json : Error
  -- "%s: %v" over another error
  wrapped : Error → Error

-- A value, or the error that is returned in its place.
pub data Result {ℓ} (A : Type ℓ) : Type ℓ where
  ok : A → Result A
  err : Error → Result A
