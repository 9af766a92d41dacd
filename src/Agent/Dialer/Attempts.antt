-- ===== src/Agent/Dialer/Attempts.antt =====
-- webrtc-agents/pkg/ws_runner/websocket.go, getDialer: which address is connected to.
use mathlib.Core.Path.{subst}
use mathlib.Core.List.{append_assoc, append-nil}
use webrtc_chat.Prelude.{
  ℕ, suc, String, Bool, true, false, some, ◌≡◌, refl, sym, List, [], ◌∷◌, ◌++◌, length, get_elem?,
  length-append, get_elem?-lt_length, get_elem?-append_cases, ◌⊎◌, inl, inr, Bool-cases, Sum-cases,
  arith, if◌then◌else◌,
}
use webrtc_chat.Agent.Dialer.{Net, all_failed, no_addresses, dial_ips, dial_host, net_dial_context}

module _ {Conn : Type 0} (n : Net Conn) (network addr port : String) where
  -- An attempt at an address.
  abbrev pub attempt : ℕ → String → Conn ⊎ String
  attempt i ip = n.dial_context i network (n.join_host_port ip port)

  -- The attempts at some addresses, in their order, all failed before the context was done, the last
  -- with the error `last`.
  pub record Tried (ips : List String) (last : String) : Type 0 where
    pub failed :
        (i : ℕ) (ip : String)
        → get_elem? ips i ≡ some ip
        → (n.done i ≡ false) × ((e : String) × (attempt i ip ≡ inr e))
    pub last_failed :
        (i : ℕ) (ip : String)
        → get_elem? ips i ≡ some ip
        → suc i ≡ length ips
        → attempt i ip ≡ inr last

  -- How the attempts at some addresses end.
  pub data Dialed (ips : List String) : Conn ⊎ String → Type 0 where
    connected :
        (before : List String) (ip : String) (after : List String) {last : String} {conn : Conn}
        → ips ≡ before ++ ip ∷ after
        → Tried before last
        → n.done (length before) ≡ false
        → attempt (length before) ip ≡ inl conn
        → Dialed ips (inl conn)
    cancelled :
        (before : List String) (ip : String) (after : List String) {last : String}
        → ips ≡ before ++ ip ∷ after
        → Tried before last
        → n.done (length before) ≡ true
        → Dialed ips (inr n.ctx_err)
    exhausted : {last : String} → Tried ips last → Dialed ips (inr (all_failed n addr last))

  Tried-next :
      (before : List String) (ip last e : String)
      → Tried before last
      → n.done (length before) ≡ false
      → attempt (length before) ip ≡ inr e
      → Tried (before ++ ip ∷ []) e
  Tried-next before ip last e tried going refused = record {
    failed = λ i ip' at. elim (get_elem?-append_cases before ip i at) [
      | inl earlier ↦ tried.failed i ip' earlier
      | inr (here, same) ↦ rw (here, sym same) (going, (e, refused))
    ];
    last_failed = λ i ip' at end. elim (get_elem?-append_cases before ip i at) [
      | inl earlier ↦
          absurd
            (omega (arith, get_elem?-lt_length before i earlier, length-append before (ip ∷ [])))
      | inr (here, same) ↦ rw (here, sym same) refused
    ];
  }

  dial_ips-Dialed :
      (before : List String) (last : String) (ips : List String)
      → Tried before last
      → Dialed (before ++ ips) (dial_ips n network addr port (length before) last ips)
  unfolding dial_ips
  dial_ips-Dialed before last [] tried = rw (append-nil before) (exhausted tried)
  dial_ips-Dialed before last (ip ∷ ips) tried = elim (Bool-cases (n.done (length before))) [
    | inl stopped ↦ rw stopped (cancelled before ip ips refl tried stopped)
    | inr going ↦ elim (Sum-cases (attempt (length before) ip)) [
      | inl (conn, answered) ↦
          rw (going, answered) (connected before ip ips refl tried going answered)
      | inr (e, refused) ↦
          let rest =
            dial_ips-Dialed (before ++ ip ∷ []) e ips
              (Tried-next before ip last e tried going refused) in
          rw (going, refused)
            (rw (append_assoc before (ip ∷ []) ips, length-append before (ip ∷ [])) at rest)
    ]
  ]

-- How a call of NetDialContext for a network and an address ends.
pub data Arrived {Conn : Type 0} (n : Net Conn) (prefer_ipv6 : Bool) (network addr : String)
    : Conn ⊎ String → Type 0 where
  bad_address :
      {e : String} → n.split_host_port addr ≡ inr e → Arrived n prefer_ipv6 network addr (inr e)
  unresolved :
      {host port e : String}
      → n.split_host_port addr ≡ inl (host, port)
      → n.lookup_ip (if prefer_ipv6 then "ip6" else "ip") host ≡ inr e
      → Arrived n prefer_ipv6 network addr (inr e)
  nothing_resolved :
      {host port : String}
      → n.split_host_port addr ≡ inl (host, port)
      → n.lookup_ip (if prefer_ipv6 then "ip6" else "ip") host ≡ inl []
      → Arrived n prefer_ipv6 network addr
          (inr (no_addresses n host (if prefer_ipv6 then "ip6" else "ip")))
  resolved :
      {host port : String} (ip : String) (ips : List String) {result : Conn ⊎ String}
      → n.split_host_port addr ≡ inl (host, port)
      → n.lookup_ip (if prefer_ipv6 then "ip6" else "ip") host ≡ inl (ip ∷ ips)
      → Dialed n network addr port (ip ∷ ips) result
      → Arrived n prefer_ipv6 network addr result

ends :
    {Conn : Type 0} (n : Net Conn) (prefer_ipv6 : Bool) (network addr : String) {r : Conn ⊎ String}
    → net_dial_context n prefer_ipv6 network addr ≡ r
    → Arrived n prefer_ipv6 network addr r
    → Arrived n prefer_ipv6 network addr (net_dial_context n prefer_ipv6 network addr)
ends n prefer_ipv6 network addr h a = subst (Arrived n prefer_ipv6 network addr) (sym h) a

-- A call of NetDialContext ends with an error if the address has no port, or if the host has no
-- addresses of the network that the runner prefers. Else it connects to the first address, in the order
-- of the resolver, that accepts while the context is not done, after one failed attempt at each earlier
-- one; or ends with the context's error, if it is done before an attempt; or, after one failed attempt
-- at each address, with the error of the last.
pub net_dial_context-Arrived :
    {Conn : Type 0} (n : Net Conn) (prefer_ipv6 : Bool) (network addr : String)
    → Arrived n prefer_ipv6 network addr (net_dial_context n prefer_ipv6 network addr)
unfolding net_dial_context dial_host
net_dial_context-Arrived n prefer_ipv6 network addr = elim (Sum-cases (n.split_host_port addr)) [
  | inr (e, s) ↦ ends n prefer_ipv6 network addr (cc s) (bad_address s)
  | inl ((host, port), s) ↦
      elim (Sum-cases (n.lookup_ip (if prefer_ipv6 then "ip6" else "ip") host)) [
        | inr (e, l) ↦ ends n prefer_ipv6 network addr (cc (s, l)) (unresolved s l)
        | inl ([], l) ↦ ends n prefer_ipv6 network addr (cc (s, l)) (nothing_resolved s l)
        | inl (ip ∷ ips, l) ↦ ends n prefer_ipv6 network addr (cc (s, l)) (
            resolved ip ips s l (
              dial_ips-Dialed n network addr port [] "<nil>" (ip ∷ ips) (record {
                failed = λ i ip at. absurd (ground arith);
                last_failed = λ i ip at end. absurd (ground arith);
              })))
      ]
]
