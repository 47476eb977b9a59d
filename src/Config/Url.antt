-- ===== src/Config/Url.antt =====
-- The URL of src/utils/config/stream_config/stream_config.cpp and the path that src/main.cpp takes
-- from it.
use hft_system.Prelude.{
  ◌≡◌, refl, arith, sym, ap, ◌∙◌, inl, inr, true, false, suc, List, [], ◌∷◌, ◌++◌, append-nil, some,
  Bool-cases, if◌then◌else◌, map, length,
}
use mathlib.Core.Option.{some-injective}
use hft_system.Registry.{StreamRow, Bytes, bytes_eq}
use hft_system.WebSocket.Handshake.{ascii, starts_with}
use hft_system.Config.{
  load_csv, lower_stream, binance, write_streams, url_start, url_query, build_binance_url,
  find_text, url_path,
}

-- The streams of the rows of BINANCE, in order.
abbrev pub streams_of : List StreamRow → List Bytes
streams_of [] = []
streams_of (r ∷ rs) =
    if bytes_eq r.exchange binance then r.stream ∷ streams_of rs else streams_of rs

-- Texts with a slash between each two.
abbrev pub join_from : Bytes → List Bytes → Bytes
join_from s [] = s
join_from s (t ∷ ts) = s ++ (b'/' ∷ join_from t ts)

abbrev pub join : List Bytes → Bytes
join [] = []
join (s ∷ ss) = join_from s ss

-- After the first text each one has a slash before it.
abbrev slashed : List Bytes → Bytes
slashed [] = []
slashed (s ∷ ss) = b'/' ∷ (s ++ slashed ss)

join_from_lem : (s : Bytes) (ss : List Bytes) → join_from s ss ≡ s ++ slashed ss
join_from_lem s [] = sym (append-nil s)
join_from_lem s (t ∷ ts) = ap (λ l. s ++ (b'/' ∷ l)) (join_from_lem t ts)

write_streams_later : (rows : List StreamRow) → write_streams false rows ≡ slashed (streams_of rows)
unfolding write_streams
write_streams_later [] = refl
write_streams_later (r ∷ rs) = elim (Bool-cases (bytes_eq r.exchange binance)) [
  | inl e ↦ rw (e, write_streams_later rs) refl
  | inr e ↦ rw (e, write_streams_later rs) refl
]

write_streams_first : (rows : List StreamRow) → write_streams true rows ≡ join (streams_of rows)
unfolding write_streams
write_streams_first [] = refl
write_streams_first (r ∷ rs) = elim (Bool-cases (bytes_eq r.exchange binance)) [
  | inl e ↦ rw (e, write_streams_later rs) (sym (join_from_lem r.stream (streams_of rs)))
  | inr e ↦ rw (e, write_streams_first rs) refl
]

url_path_lem :
    (rest : Bytes) → url_path (url_start ++ (url_query ++ rest)) ≡ some (url_query ++ rest)
unfolding url_path find_text starts_with
url_path_lem rest = refl

-- The URL is the address of the venue with the streams of the rows of BINANCE, in order, with a
-- slash between each two, and the path that is cut from it is the part from /stream? on.
pub url_path-build_binance_url :
    (rows : List StreamRow)
    → (build_binance_url rows
        ≡ ascii "wss://stream.binance.com:9443/stream?streams=" ++ join (streams_of rows))
      × (url_path (build_binance_url rows)
          ≡ some (ascii "/stream?streams=" ++ join (streams_of rows)))
unfolding build_binance_url
url_path-build_binance_url rows =
    let e = write_streams_first rows in
    (
      ap (λ l. url_start ++ (url_query ++ l)) e,
      url_path_lem (write_streams true rows) ∙ ap (λ l. some (url_query ++ l)) e,
    )

length-map {ℓ κ} :
    {A : Type ℓ} {B : Type κ} (f : A → B) (xs : List A) → length (map f xs) ≡ length xs
length-map f [] = refl
length-map f (x ∷ xs) = ap suc (length-map f xs)

-- The rows that are kept, if there are any.
pub load_csv-rows :
    (csv_rows : List StreamRow) {rows : List StreamRow}
    → load_csv csv_rows ≡ some rows
    → (rows ≡ map lower_stream csv_rows) × (length rows ≡ length csv_rows)
unfolding load_csv
load_csv-rows [] h = absurd (ground arith)
load_csv-rows (r ∷ rs) h =
    let same = some-injective _ _ (sym h) in
    (same, ap length same ∙ length-map lower_stream (r ∷ rs))
