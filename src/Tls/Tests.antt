-- ===== src/Tls/Tests.antt =====
-- The handles of `TLSClient` of src/utils/net/tls_client/tls_client.cpp in concrete calls.
use hft_system.Prelude.{◌≡◌, true, false, some, ◌↔◌}
use hft_system.Tls.{Results, new_client, no_handles, connect, destroy}
use hft_system.Tls.Life.{AllGood, destroy-connect}

abbrev no_handshake : Results
no_handshake = record {
  resolved = true;
  socket = some 5;
  reached = true;
  context = true;
  session = true;
  handshaken = false;
}

destroy-connect_example :
    (((connect new_client no_handles no_handshake).0 ≡ true) ↔ AllGood no_handshake)
    × ((connect new_client no_handles no_handshake).2.addresses ≡ 0)
    × (destroy
          (connect new_client no_handles no_handshake).1
          (connect new_client no_handles no_handshake).2
        ≡ no_handles)
destroy-connect_example = destroy-connect no_handshake
