-- ===== src/Auth/Verify.antt =====
-- webrtc-server/pkg/kioubit/kioubit.go: which parameters VerifyAuthToken accepts, and what a login
-- does with parameters that it does not.
use webrtc_chat.Prelude.{
  ℕ, String, true, false, ◌≡◌, refl, ◌∙◌, ap, ◌↔◌, none, some, ◌++◌, ◌⊎◌, inl, inr, done, ◌==◌,
  Bool-cases, Option-cases, Sum-cases, if◌then◌else◌, ltb, arith,
}
use Prim.Native.String.{◌++◌ as str_append}
use webrtc_chat.Map
use webrtc_chat.Http.{Request, fail}
use webrtc_chat.Auth.Bound.{is_bound-none}
use webrtc_chat.Auth.Retry.{Turn, Logins}
use webrtc_chat.Auth.Github.{invalid_nonce}
use webrtc_chat.Auth.Kioubit.{
  KioubitLoginHandler, KioubitAuthCallbackParams, Formats, no_block, no_key, other_key, ecdsa_key,
  malformed, null, fields, verify_auth_token, check_signature, read_params, take_parsed,
  check_fields, Parsed, Pem, distance, default_timeout_secs, new_callback_params,
  handle_authorization_code, with_session, with_verdict, go_on, get_nonce,
}

Pem-cases :
    {K : Type 0} (x : Pem K)
    → ((key : K) × (x ≡ ecdsa_key key)) ⊎ ((x ≡ no_block) ⊎ ((x ≡ no_key) ⊎ (x ≡ other_key)))
Pem-cases no_block = inr (inl refl)
Pem-cases no_key = inr (inr (inl refl))
Pem-cases other_key = inr (inr (inr refl))
Pem-cases (ecdsa_key key) = inl (key, refl)

module _ {K : Type 0} (formats : Formats K) where
  -- Parameters that the key signed, that are fresh, and that name a domain, whichever.
  abbrev pub Accepted : ℕ → String → String → String → KioubitAuthCallbackParams → Type 0
  Accepted now signature params pem_pub_key p =
      (key : K) × (sig : String) × (bytes : String) × (domain : String) × (formats.read_key
          pem_pub_key
        ≡ ecdsa_key key)
      × (formats.decode_base64 signature ≡ inr sig)
      × (formats.verify key params sig ≡ true)
      × (formats.decode_base64 params ≡ inr bytes)
      × (formats.unmarshal bytes ≡ fields p)
      × (ltb default_timeout_secs (distance p.time now) ≡ false)
      × (p.domain ≡ some domain)

  check_fields-accepts :
      (now : ℕ) (q p : KioubitAuthCallbackParams)
      → check_fields now q ≡ done (inr p)
      → (q ≡ p)
        × (ltb default_timeout_secs (distance q.time now) ≡ false)
        × ((domain : String) × (q.domain ≡ some domain))
  unfolding check_fields
  check_fields-accepts now q p h =
      elim (Bool-cases (ltb default_timeout_secs (distance q.time now))) [
        | inl late ↦ absurd (ground arith)
        | inr fresh ↦ elim (Option-cases q.domain) [
          | inl missing ↦ absurd (ground arith)
          | inr (domain, named) ↦ (ground arith, fresh, (domain, named))
        ]
      ]

  params_accepts :
      (now : ℕ) (bytes : String) (x : Parsed) (p : KioubitAuthCallbackParams)
      → formats.unmarshal bytes ≡ x
      → take_parsed now x ≡ done (inr p)
      → (formats.unmarshal bytes ≡ fields p)
        × (ltb default_timeout_secs (distance p.time now) ≡ false)
        × ((domain : String) × (p.domain ≡ some domain))
  unfolding take_parsed
  params_accepts now bytes (malformed e) p at h = absurd (cc)
  params_accepts now bytes null p at h = absurd (cc)
  params_accepts now bytes (fields q) p at h =
      let (same, fresh, named) = check_fields-accepts now q p h in
      (rw (← same) at, rw (← same) fresh, rw (← same) named)

  read_params-accepts :
      (now : ℕ) (params : String) (p : KioubitAuthCallbackParams)
      → read_params formats now params ≡ done (inr p)
      → (bytes : String) × (domain : String) × (formats.decode_base64 params ≡ inr bytes)
        × (formats.unmarshal bytes ≡ fields p)
        × (ltb default_timeout_secs (distance p.time now) ≡ false)
        × (p.domain ≡ some domain)
  unfolding read_params
  read_params-accepts now params p h = elim (Sum-cases (formats.decode_base64 params)) [
    | inl (e, bad) ↦ absurd (ground arith)
    | inr (bytes, decoded) ↦
        let (parsed, fresh, (domain, named)) =
          params_accepts now bytes (formats.unmarshal bytes) p refl
            (rw (decoded, read_params) at h) in
        (bytes, domain, decoded, parsed, fresh, named)
  ]

  check_signature-accepts :
      (now : ℕ) (signature params : String) (key : K) (p : KioubitAuthCallbackParams)
      → check_signature formats now signature params key ≡ done (inr p)
      → (sig : String) × (formats.decode_base64 signature ≡ inr sig)
        × (formats.verify key params sig ≡ true)
        × (read_params formats now params ≡ done (inr p))
  unfolding check_signature
  check_signature-accepts now signature params key p h =
      elim (Sum-cases (formats.decode_base64 signature)) [
        | inl (e, bad) ↦ absurd (ground arith)
        | inr (sig, decoded) ↦ elim (Bool-cases (formats.verify key params sig)) [
          | inl signed ↦ (sig, decoded, signed, ground arith)
          | inr unsigned ↦ absurd (ground arith)
        ]
      ]

  verify_to :
      (now : ℕ) (signature params pem_pub_key : String) (p : KioubitAuthCallbackParams)
      → verify_auth_token formats now signature params pem_pub_key ≡ done (inr p)
      → Accepted now signature params pem_pub_key p
  unfolding verify_auth_token
  verify_to now signature params pem_pub_key p h = elim (Pem-cases (formats.read_key pem_pub_key)) [
    | inr bad ↦ absurd (ground arith)
    | inl (key, read) ↦
        let (sig, decoded, signed, opened) =
          check_signature-accepts now signature params key p (rw (read, verify_auth_token) at h) in
        let (bytes, domain, unpacked, parsed, fresh, named) =
          read_params-accepts now params p opened in
        (key, sig, bytes, domain, read, decoded, signed, unpacked, parsed, fresh, named)
  ]

  verify_from :
      (now : ℕ) (signature params pem_pub_key : String) (p : KioubitAuthCallbackParams)
      → Accepted now signature params pem_pub_key p
      → verify_auth_token formats now signature params pem_pub_key ≡ done (inr p)
  unfolding verify_auth_token check_signature read_params take_parsed check_fields
  verify_from now signature params pem_pub_key p
        (key, sig, bytes, domain, read, decoded, signed, opened, parsed, fresh, named) =
      ground arith

  -- VerifyAuthToken accepts parameters exactly when the key, which is an ECDSA key, signed their text,
  -- they decode and parse, their time is at most 60 seconds from now, and they have a domain. Which
  -- domain makes no difference.
  pub verify_auth_token_iff :
      (now : ℕ) (signature params pem_pub_key : String) (p : KioubitAuthCallbackParams)
      → (verify_auth_token formats now signature params pem_pub_key ≡ done (inr p))
        ↔ Accepted now signature params pem_pub_key p
  verify_auth_token_iff now signature params pem_pub_key p =
      (verify_to now signature params pem_pub_key p, verify_from now signature params pem_pub_key p)

-- A request with a session whose parameters are rejected is answered twice: with the reason, and
-- then with the error of its query, or else that its nonce is invalid. Nobody is logged in, and
-- nothing changes. No nonce is the empty text.
pub kioubit_rejected :
    {K : Type 0} (h : KioubitLoginHandler) (formats : Formats K) (now : ℕ) (turns : ℕ → Turn)
    (r : Request) (s : Logins) (session_id e : String)
    → r.session_id ≡ some session_id
    → new_callback_params formats now h.pubkey r ≡ done (inl e)
    → Map.get s.nonces "" ≡ none
    → handle_authorization_code h formats now turns r s
      ≡ done (
        fail 400 e
            ++ (if r.query "error" == ""
                then invalid_nonce ""
                else fail 400
                    (str_append (r.query "error") (str_append ": " (r.query "error_description")))),
        s,
      )
unfolding handle_authorization_code with_session with_verdict go_on get_nonce
kioubit_rejected h formats now turns r s session_id e session rejected no_empty =
    let started : with_session h formats now turns r s r.session_id
        ≡ with_verdict h turns r session_id s (inl e) =
      ap (with_session h formats now turns r s) session ∙ rw rejected refl in
    rw started (elim (Bool-cases (r.query "error" == "")) [
      | inl good ↦ rw (good, is_bound-none s.nonces "" session_id no_empty) refl
      | inr bad ↦ rw bad refl
    ])
