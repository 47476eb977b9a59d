-- ===== src/Config/Tests.antt =====
-- The configuration of src/utils/config/stream_config/stream_config.cpp and
-- include/utils/config/env_loader.hpp on concrete rows and lines.
use hft_system.Prelude.{◌≡◌, refl, List, [], ◌∷◌, ◌++◌, some, none, all_nil, all_cons}
use hft_system.Registry.{StreamRow, bytes_eq}
use hft_system.WebSocket.Handshake.{ascii, starts_with}
use hft_system.Config.{build_binance_url, url_path, load_csv, is_space, env_line}
use hft_system.Config.Url.{join, streams_of, url_path-build_binance_url}
use hft_system.Config.Env.{env_line-assignment}

abbrev rows : List StreamRow
rows =
    record { exchange = ascii "BINANCE"; symbol = ascii "BTCUSDT"; stream = ascii "btcusdt@depth" }
    ∷ record { exchange = ascii "OTHER"; symbol = ascii "X"; stream = ascii "x" }
    ∷ record {
      exchange = ascii "BINANCE";
      symbol = ascii "ETHUSDT";
      stream = ascii "ethusdt@depth";
    }
    ∷ []

joined : join (streams_of rows) ≡ ascii "btcusdt@depth/ethusdt@depth"
unfolding bytes_eq
joined = refl

no_rows : load_csv [] ≡ none
unfolding load_csv
no_rows = refl

comment_line : env_line (ascii "# KEY=1") ≡ none
unfolding env_line
comment_line = refl

url_path-build_binance_url_example :
    (build_binance_url rows
      ≡ ascii "wss://stream.binance.com:9443/stream?streams=" ++ join (streams_of rows))
    × (url_path (build_binance_url rows)
        ≡ some (ascii "/stream?streams=" ++ join (streams_of rows)))
url_path-build_binance_url_example = url_path-build_binance_url rows

env_line-assignment_example : env_line (ascii " KEY =a b\r") ≡ some (ascii "KEY", ascii "a b")
unfolding is_space starts_with
env_line-assignment_example =
    env_line-assignment (32 ∷ []) (ascii "KEY") (32 ∷ []) [] (ascii "a b") (13 ∷ [])
      (all_cons refl all_nil) (all_cons refl all_nil) all_nil (all_cons refl all_nil) refl refl
      (all_cons refl (all_cons refl (all_cons refl all_nil))) refl refl refl
