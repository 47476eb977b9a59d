-- ===== src/Tls/Life.antt =====
-- The handles of src/utils/net/tls_client/tls_client.cpp over the life of a client.
use hft_system.Prelude.{ℕ, ◌≡◌, ◌≢◌, arith, true, none, some, ◌↔◌}
use hft_system.Tls.{Results, new_client, no_handles, secure, reach, connect, destroy}

-- Every call of a `connect` succeeds.
abbrev pub AllGood : Results → Type 0
AllGood r =
    (r.resolved ≡ true)
    × (r.socket ≢ none)
    × (r.reached ≡ true)
    × (r.context ≡ true)
    × (r.session ≡ true)
    × (r.handshaken ≡ true)

-- A new client connects exactly if every call succeeds; however the attempt ends, no list of
-- addresses stays open, and the destructor leaves no handle open.
pub destroy-connect :
    (r : Results)
    → (((connect new_client no_handles r).0 ≡ true) ↔ AllGood r)
      × ((connect new_client no_handles r).2.addresses ≡ 0)
      × (destroy (connect new_client no_handles r).1 (connect new_client no_handles r).2
          ≡ no_handles)
unfolding connect reach secure destroy
destroy-connect r = ground arith

-- If a client connects twice and its socket is opened and connected both times, one socket stays
-- open after the destructor.
pub connect_twice :
    (r : Results)
    → r.resolved ≡ true
    → (a : ℕ) → r.socket ≡ some a
    → r.reached ≡ true
    → let first = connect new_client no_handles r in
      let second = connect first.1 first.2 r in (destroy second.1 second.2).sockets ≡ 1
unfolding connect reach secure destroy
connect_twice r h a e k = ground arith
