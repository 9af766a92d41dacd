-- ===== src/Server/Logins.antt =====
-- webrtc-server/main.go: which logins a server offers.
use webrtc_chat.Prelude.{
  arith, String, Bool, true, false, Option, List, [], ◌∷◌, ◌≡◌, not, ◌==◌, ◌&&◌, inl,
}
use webrtc_chat.Server.{Cli, Endpoint, github_login, kioubit_login, routes}

abbrev pub offers_github : List (String × Endpoint) → Bool
offers_github [] = false
offers_github ((path, github_login id secret) ∷ rs) = true
offers_github ((path, e) ∷ rs) = offers_github rs

abbrev pub offers_kioubit : List (String × Endpoint) → Bool
offers_kioubit [] = false
offers_kioubit ((path, kioubit_login key) ∷ rs) = true
offers_kioubit ((path, e) ∷ rs) = offers_kioubit rs

-- A server that starts offers the login with GitHub exactly if the id and the secret of its client are
-- in the environment and it has a redirect URL, and the login with Kioubit exactly if a key is named.
pub routes-offered :
    (cli : Cli) (getenv : String → String) (read_file : String → Option String)
    (rs : List (String × Endpoint))
    → routes cli getenv read_file ≡ inl rs
    → (offers_github rs ≡ (
        not (getenv "GH_LOGIN_CLIENT_ID" == "")
        && (not (getenv "GH_LOGIN_CLIENT_SECRET" == "")
            && not (cli.github_login_redirect_url == ""))))
      × (offers_kioubit rs ≡ not (cli.kioubit_login_pubkey == ""))
unfolding routes
routes-offered cli getenv read_file rs h = ground (arith, h)
