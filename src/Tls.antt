-- ===== src/Tls.antt =====
-- `TLSClient` of include/utils/net/tls_client/tls_client.h and
-- src/utils/net/tls_client/tls_client.cpp: which handles it holds. The results of the system and of
-- OpenSSL are parameters of a call.
mod Tests
pub mod Life
use hft_system.Prelude.{ℕ, suc, ◌+◌, ◌-◌, not, if◌then◌else◌, Bool, true, false, Option, none, some}

-- The client: whether its two pointers are set, and its descriptor unless that is -1.
pub record TlsClient : Type 0 where
  pub ssl : Bool
  pub ssl_ctx : Bool
  pub socket_fd : Option ℕ

-- What is open: address lists, sockets, contexts and sessions.
pub record Handles : Type 0 where
  pub addresses : ℕ
  pub sockets : ℕ
  pub contexts : ℕ
  pub sessions : ℕ

-- What the calls of one `connect` give.
pub record Results : Type 0 where
  pub resolved : Bool
  pub socket : Option ℕ
  pub reached : Bool
  pub context : Bool
  pub session : Bool
  pub handshaken : Bool

abbrev pub new_client : TlsClient
new_client = record { ssl = false; ssl_ctx = false; socket_fd = none }

abbrev pub no_handles : Handles
no_handles = record { addresses = 0; sockets = 0; contexts = 0; sessions = 0 }

-- From `SSL_CTX_new` on.
pub secure : TlsClient → Handles → Results → Bool × TlsClient × Handles
secure c o r =
    let c' = record c { ssl_ctx = true } in
    let o' = record o { contexts = o.contexts + 1 } in
    let c'' = record c' { ssl = true } in
    let o'' = record o' { sessions = o'.sessions + 1 } in
    if not r.context
    then (false, record c { ssl_ctx = false }, o)
    else if not r.session
    then (false, record c' { ssl = false }, o')
    else (r.handshaken, c'', o'')

-- From the descriptor on; the list of addresses is freed on both ways.
pub reach : TlsClient → Handles → Results → ℕ → Bool × TlsClient × Handles
unfolding secure
reach c o r fd =
    let c' = record c { socket_fd = some fd } in
    let freed = record o { addresses = o.addresses - 1 } in
    let opened = record freed { sockets = freed.sockets + 1 } in
    if not r.reached then (false, record c' { socket_fd = none }, freed) else secure c' opened r

-- `connect`
pub connect : TlsClient → Handles → Results → Bool × TlsClient × Handles
unfolding reach
connect c o r =
    let o' = record o { addresses = o.addresses + 1 } in
    if not r.resolved then (false, c, o) else elim r.socket [
      | none ↦ (false, record c { socket_fd = none }, record o' { addresses = o'.addresses - 1 })
      | some fd ↦ reach c o' r fd
    ]

abbrev close_one : Bool → ℕ → ℕ
close_one true n = n - 1
close_one false n = n

-- `~TLSClient`
pub destroy : TlsClient → Handles → Handles
destroy c o = record o {
  sessions = close_one c.ssl o.sessions;
  contexts = close_one c.ssl_ctx o.contexts;
  sockets = elim c.socket_fd [ none ↦ o.sockets | some fd ↦ o.sockets - 1 ];
}

-- `fd`: -1 is none.
pub fd : TlsClient → Option ℕ
fd c = c.socket_fd
