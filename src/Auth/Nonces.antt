-- ===== src/Auth/Nonces.antt =====
-- The nonces of webrtc-server/pkg/handler/handle_github_login.go and handle_kioutbit_login.go: which
-- session started a login, and from which page. A nonce is the text that uuid.NewString returns.
use webrtc_chat.Prelude.{String, Bool, none, some, not, ◌&&◌, ◌==◌}
use webrtc_chat.Map
use webrtc_chat.Map.{Map}

pub record NonceState : Type 0 where
  pub session_id : String
  pub current_page : String

unfoldable pub create_nonce_for : String → String → String → Map NonceState → Map NonceState
create_nonce_for nonce session_id current_page nonces =
    Map.put nonces nonce (record { session_id = session_id; current_page = current_page })

-- What the goroutine of createNonceFor does after the lifespan of the nonce.
unfoldable pub expire : String → Map NonceState → Map NonceState
expire nonce nonces = Map.remove nonces nonce

unfoldable pub get_session_id_by_nonce : Map NonceState → String → String
get_session_id_by_nonce nonces nonce = elim (Map.get nonces nonce) [
  | some state ↦ state.session_id
  | none ↦ ""
]

unfoldable pub get_initial_page_by_nonce : Map NonceState → String → String
get_initial_page_by_nonce nonces nonce = elim (Map.get nonces nonce) [
  | some state ↦ state.current_page
  | none ↦ ""
]

-- The test that a request's session started the login of its nonce.
unfoldable pub is_bound : Map NonceState → String → String → Bool
unfolding get_session_id_by_nonce
is_bound nonces nonce session_id =
    let s = get_session_id_by_nonce nonces nonce in not (s == "") && s == session_id
