-- ===== src/Agent/Dialer.antt =====
-- webrtc-agents/pkg/ws_runner/websocket.go, getDialer: how the name of the server is dialed. The
-- resolver, net and the context are the parameter `Net`, and an error is its text.
pub mod Attempts
use Prim.Native.String.{◌++◌ as str_append}
use webrtc_chat.Prelude.{
  ℕ, ◌+◌, String, Bool, List, [], ◌∷◌, ◌⊎◌, inl, inr, ◌==◌, ◌&&◌, if◌then◌else◌,
}

pub record Net (Conn : Type 0) : Type 0 where
  -- net.SplitHostPort
  pub split_host_port : String → (String × String) ⊎ String
  -- Resolver.LookupIP, of a network and a host, with each address as text
  pub lookup_ip : String → String → List String ⊎ String
  pub join_host_port : String → String → String
  -- whether the context is done before an attempt, with its error
  pub done : ℕ → Bool
  pub ctx_err : String
  -- an attempt with a network and an address
  pub dial_context : ℕ → String → String → Conn ⊎ String

module _ {Conn : Type 0} (n : Net Conn) where
  abbrev pub all_failed : String → String → String
  all_failed addr last_err =
      str_append "failed to connect to " (str_append addr (str_append ": " last_err))

  -- The attempts from the `i`-th on.
  unfoldable pub dial_ips : String → String → String → ℕ → String → List String → Conn ⊎ String
  dial_ips network addr port i last_err [] = inr (all_failed addr last_err)
  dial_ips network addr port i last_err (ip ∷ ips) =
      if n.done i
      then inr n.ctx_err
      else elim (n.dial_context i network (n.join_host_port ip port)) [
        | inl conn ↦ inl conn
        | inr err ↦ dial_ips network addr port (i + 1) err ips
      ]

  abbrev pub no_addresses : String → String → String
  no_addresses host preference =
      str_append "failed to resolve IP addresses for "
        (str_append host (str_append ", network: " preference))

  -- The addresses of a host; lastErr is nil before the first attempt.
  unfoldable pub dial_host : String → String → String → String → String → Conn ⊎ String
  unfolding dial_ips
  dial_host preference network addr host port = elim (n.lookup_ip preference host) [
    | inr err ↦ inr err
    | inl [] ↦ inr (no_addresses host preference)
    | inl (ip ∷ ips) ↦ dial_ips network addr port 0 "<nil>" (ip ∷ ips)
  ]

  -- NetDialContext
  unfoldable pub net_dial_context : Bool → String → String → Conn ⊎ String
  unfolding dial_host
  net_dial_context prefer_ipv6 network addr = elim (n.split_host_port addr) [
    | inr err ↦ inr err
    | inl (host, port) ↦ dial_host (if prefer_ipv6 then "ip6" else "ip") network addr host port
  ]

-- Whether the runner's TLS configuration is used.
unfoldable pub uses_tls_config : String → Bool → Bool
uses_tls_config scheme has_config = scheme == "wss" && has_config
