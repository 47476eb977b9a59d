-- ===== src/Sbe/Wire.antt =====
-- Numbers as bytes, the least significant first, and what `read_le` of
-- src/market_data/data_ingester/sbe_decoder.cpp reads of them in the midst of a buffer.
use hft_system.Prelude.{
  ℕ, zero, suc, ◌+◌, ◌*◌, ◌/◌, ◌%◌, ◌^◌, ◌≤◌, ◌<◌, ◌≡◌, refl, arith, sym, ap, ◌∙◌, List, [], ◌∷◌,
  ◌++◌, length, length-append, take, drop, get_or, append_assoc, ltb, if◌then◌else◌,
}
use hft_system.Prelude.Int.{ℤ, pos, negsuc, pos_part, neg_part, sub_ℕ, wrap}
use hft_system.Sbe.{le_value, read_le, read_signed}

-- How many numbers `width` bytes hold.
abbrev pub limit : ℕ → ℕ
limit zero = 1
limit (suc width) = 256 * limit width

abbrev pub le_bytes : ℕ → ℕ → List ℕ
le_bytes zero v = []
le_bytes (suc width) v = v % 256 ∷ le_bytes width (v / 256)

pub length-le_bytes : (width v : ℕ) → length (le_bytes width v) ≡ width
length-le_bytes zero v = refl
length-le_bytes (suc width) v = ap suc (length-le_bytes width (v / 256))

le_value-le_bytes : (width v : ℕ) → v < limit width → le_value (le_bytes width v) ≡ v
unfolding le_value
le_value-le_bytes zero v h = omega arith
le_value-le_bytes (suc width) v h = omega (arith, le_value-le_bytes width (v / 256) (omega arith))

-- `bytes` stand in `msg` from `offset` on.
pub record At (offset : ℕ) (bytes msg : List ℕ) : Type 0 where
  pub before : List ℕ
  pub after : List ℕ
  pub begins : length before ≡ offset
  pub whole : msg ≡ before ++ (bytes ++ after)

pub At-front : (bytes rest : List ℕ) → At 0 bytes (bytes ++ rest)
At-front bytes rest = record { before = []; after = rest; begins = refl; whole = refl }

pub At-left : (offset : ℕ) (xs ys msg : List ℕ) → At offset (xs ++ ys) msg → At offset xs msg
At-left offset xs ys msg a = record {
  before = a.before;
  after = ys ++ a.after;
  begins = a.begins;
  whole = a.whole ∙ ap (λ l. a.before ++ l) (append_assoc xs ys a.after);
}

pub At-right :
    (offset : ℕ) (xs ys msg : List ℕ) → At offset (xs ++ ys) msg → At (offset + length xs) ys msg
At-right offset xs ys msg a = record {
  before = a.before ++ xs;
  after = a.after;
  begins = length-append a.before xs ∙ ap (λ n. n + length xs) a.begins;
  whole =
      a.whole
      ∙ ap (λ l. a.before ++ l) (append_assoc xs ys a.after)
      ∙ sym (append_assoc a.before xs (ys ++ a.after));
}

drop-length : (xs ys : List ℕ) → drop (length xs) (xs ++ ys) ≡ ys
drop-length [] ys = refl
drop-length (x ∷ xs) ys = drop-length xs ys

take-length : (xs ys : List ℕ) → take (length xs) (xs ++ ys) ≡ xs
take-length [] ys = refl
take-length (x ∷ xs) ys = ap (λ l. x ∷ l) (take-length xs ys)

get_or-length : (xs ys : List ℕ) (y d : ℕ) → get_or (xs ++ (y ∷ ys)) (length xs) d ≡ y
get_or-length [] ys y d = refl
get_or-length (x ∷ xs) ys y d = get_or-length xs ys y d

pub At-le :
    (offset : ℕ) (bytes msg : List ℕ) → At offset bytes msg → offset + length bytes ≤ length msg
At-le offset bytes msg a =
    let all = ap (λ (l : List ℕ). length l) a.whole in
    omega
      (arith, all, a.begins, length-append a.before (bytes ++ a.after), length-append bytes a.after)

pub drop-At :
    (offset : ℕ) (bytes msg : List ℕ)
    → At offset bytes msg
    → (after : List ℕ) × (drop offset msg ≡ bytes ++ after)
drop-At offset bytes msg a = (
  a.after,
  ap (λ k. drop k msg) (sym a.begins)
      ∙ ap (λ l. drop (length a.before) l) a.whole
      ∙ drop-length a.before (bytes ++ a.after),
)

pub take-At :
    (offset : ℕ) (bytes msg : List ℕ)
    → At offset bytes msg
    → take (length bytes) (drop offset msg) ≡ bytes
take-At offset bytes msg a =
    let (after, e) = drop-At offset bytes msg a in
    ap (take (length bytes)) e ∙ take-length bytes after

pub get_or-At :
    (offset x : ℕ) (bytes msg : List ℕ) (d : ℕ)
    → At offset (x ∷ bytes) msg
    → get_or msg offset d ≡ x
get_or-At offset x bytes msg d a =
    ap (λ k. get_or msg k d) (sym a.begins)
    ∙ ap (λ l. get_or l (length a.before) d) a.whole
    ∙ get_or-length a.before (bytes ++ a.after) x d

pub read_le-At :
    (width v offset : ℕ) (msg : List ℕ)
    → At offset (le_bytes width v) msg
    → v < limit width
    → read_le width msg offset ≡ v
unfolding read_le
read_le-At width v offset msg a h =
    let len = length-le_bytes width v in
    let fits : offset + width ≤ length msg = omega (arith, At-le offset (le_bytes width v) msg a) in
    let taken : take width (drop offset msg) ≡ le_bytes width v =
      ap (λ k. take k (drop offset msg)) (sym len) ∙ take-At offset (le_bytes width v) msg a in
    let value : le_value (take width (drop offset msg)) ≡ v =
      ap le_value taken ∙ le_value-le_bytes width v h in
    ground arith

-- A signed number of `width` bytes.
abbrev pub signed_bytes : ℕ → ℤ → List ℕ
signed_bytes width x = le_bytes width (wrap x (limit width))

-- Two's complement of one byte and of eight.
abbrev pub IsInt8 : ℤ → Type 0
IsInt8 x = (pos_part x < 2 ^ 7) × (neg_part x ≤ 2 ^ 7)

abbrev pub IsInt64 : ℤ → Type 0
IsInt64 x = (pos_part x < 2 ^ 63) × (neg_part x ≤ 2 ^ 63)

pub read_signed-byte :
    (x : ℤ) (offset : ℕ) (msg : List ℕ)
    → At offset (signed_bytes 1 x) msg
    → IsInt8 x
    → read_signed 1 msg offset ≡ x
unfolding read_signed wrap
read_signed-byte x offset msg a h =
    let e = read_le-At 1 (wrap x 256) offset msg a (omega arith) in rw e (signed x h)
  where
    signed :
        (x : ℤ)
        → IsInt8 x
        → (if ltb (wrap x 256) (2 ^ 7) then pos (wrap x 256) else sub_ℕ (wrap x 256) (2 ^ 8)) ≡ x
    signed (pos n) h = ground arith
    signed (negsuc n) h = ground arith

pub read_signed-word :
    (x : ℤ) (offset : ℕ) (msg : List ℕ)
    → At offset (signed_bytes 8 x) msg
    → IsInt64 x
    → read_signed 8 msg offset ≡ x
unfolding read_signed wrap
read_signed-word x offset msg a h =
    let e = read_le-At 8 (wrap x (2 ^ 64)) offset msg a (omega arith) in rw e (signed x h)
  where
    signed :
        (x : ℤ)
        → IsInt64 x
        → (if ltb (wrap x (2 ^ 64)) (2 ^ 63)
            then pos (wrap x (2 ^ 64))
            else sub_ℕ (wrap x (2 ^ 64)) (2 ^ 64))
          ≡ x
    signed (pos n) h = ground arith
    signed (negsuc n) h = ground arith
