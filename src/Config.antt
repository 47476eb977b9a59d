-- ===== src/Config.antt =====
-- The configuration: src/utils/config/stream_config/stream_config.cpp and
-- include/utils/config/env_loader.hpp. The rows of the CSV file and the lines of the environment file
-- are parameters: their reading is a third-party library's and the standard library's.
mod Tests
pub mod Url
pub mod Env
use hft_system.Prelude.{
  ℕ, zero, suc, ◌+◌, ◌==◌, leb, ◌&&◌, ◌||◌, not, if◌then◌else◌, Bool, true, false, List, [], ◌∷◌,
  ◌++◌, map, take, drop, Option, none, some,
}
use hft_system.Registry.{StreamRow, Bytes, bytes_eq}
use hft_system.WebSocket.Handshake.{ascii, starts_with}

-- `::tolower` of the C locale.
unfoldable pub to_lower : ℕ → ℕ
to_lower c = if leb b'A' c && leb c b'Z' then c + 32 else c

abbrev pub lower_stream : StreamRow → StreamRow
unfolding to_lower
lower_stream r = record r { stream = map to_lower r.stream }

-- `loadCSV` from the rows that the reader gives; `none` is the exception for no rows.
unfoldable pub load_csv : List StreamRow → Option (List StreamRow)
unfolding lower_stream
load_csv [] = none
load_csv (r ∷ rs) = some (map lower_stream (r ∷ rs))

abbrev pub binance : Bytes
binance = ascii "BINANCE"

-- The loop of `buildBinanceURL`: what it writes from these rows on.
unfoldable pub write_streams : Bool → List StreamRow → Bytes
write_streams first [] = []
write_streams first (r ∷ rs) =
    let rest = write_streams false rs in
    let same = write_streams first rs in
    if bytes_eq r.exchange binance
    then (if first then [] else b'/' ∷ []) ++ r.stream ++ rest
    else same

abbrev pub url_start : Bytes
url_start = ascii "wss://stream.binance.com:9443"

abbrev pub url_query : Bytes
url_query = ascii "/stream?streams="

-- `buildBinanceURL`
unfoldable pub build_binance_url : List StreamRow → Bytes
unfolding write_streams
build_binance_url rows = url_start ++ (url_query ++ write_streams true rows)

-- `find` of a text, from position `i` on; `none` is `npos`.
unfoldable pub find_text : Bytes → ℕ → Bytes → Option ℕ
find_text needle i [] = if starts_with needle [] then some i else none
find_text needle i (b ∷ bs) =
    let later = find_text needle (i + 1) bs in if starts_with needle (b ∷ bs) then some i else later

-- `full_url.substr(full_url.find("/stream?"))` of main; `none` is the exception of `substr`.
unfoldable pub url_path : Bytes → Option Bytes
unfolding find_text
url_path url = elim (find_text (ascii "/stream?") 0 url) [
  | none ↦ none
  | some i ↦ some (drop i url)
]

-- The white space that `loadEnv` trims: space, tab, newline and carriage return.
pub is_space : ℕ → Bool
is_space c = c == 32 || c == 9 || c == 10 || c == 13

-- `s.erase(0, s.find_first_not_of(...))`
pub trim_left : Bytes → Bytes
unfolding is_space
trim_left [] = []
trim_left (c ∷ cs) = if is_space c then trim_left cs else c ∷ cs

-- `s.erase(s.find_last_not_of(...) + 1)`
pub trim_right : Bytes → Bytes
unfolding is_space
trim_right [] = []
trim_right (c ∷ cs) = elim (trim_right cs) [
  | [] ↦ if is_space c then [] else c ∷ []
  | d ∷ ds ↦ c ∷ d ∷ ds
]

-- The text before the first `=` and the text after it, if there is one.
pub split_eq : Bytes → Option (Bytes × Bytes)
split_eq [] = none
split_eq (c ∷ cs) =
    let rest : Option (Bytes × Bytes) = elim (split_eq cs) [
      | none ↦ none
      | some (k, v) ↦ some (c ∷ k, v)
    ] in
    if c == b'=' then some ([], cs) else rest

-- Both parts without the white space at their ends.
pub trim_parts : Option (Bytes × Bytes) → Option (Bytes × Bytes)
trim_parts none = none
trim_parts (some (k, v)) = some (trim_right (trim_left k), trim_right (trim_left v))

-- What one line of the file sets.
pub env_line : Bytes → Option (Bytes × Bytes)
env_line [] = none
env_line (c ∷ cs) = if c == b'#' then none else trim_parts (split_eq (c ∷ cs))

-- `loadEnv`: the calls of `setenv` over the lines; `set` is that function on an environment.
pub load_env : {E : Type 0} → (E → Bytes → Bytes → E) → E → List Bytes → E
unfolding env_line
load_env set env [] = env
load_env set env (line ∷ lines) = elim (env_line line) [
  | none ↦ load_env set env lines
  | some (k, v) ↦ load_env set (set env k v) lines
]
