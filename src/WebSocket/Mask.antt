-- ===== src/WebSocket/Mask.antt =====
-- The mask of src/utils/net/websocket/websocket.cpp undoes itself.
use hft_system.Prelude.{
  ℕ, zero, suc, ◌+◌, ◌%◌, ◌<◌, ◌≡◌, refl, arith, ap₂, List, [], ◌∷◌, length, get_or, Bool, true,
  false, if◌then◌else◌, ◌==◌, ℕ_discrete, All, all_nil, all_cons,
}
use Prim.Native.Nat.{bit_xor}
use hft_system.WebSocket.{mask_from, mask_payload}

abbrev pub IsByte : ℕ → Type 0
IsByte b = b < 256

-- Masking twice by the byte `m` gives back each byte under `n`.
restores : ℕ → ℕ → Bool
restores m zero = true
restores m (suc n) = if bit_xor (bit_xor n m) m == n then restores m n else false

-- The same for each mask under `k`.
restores_all : ℕ → Bool
restores_all zero = true
restores_all (suc k) = if restores k 256 then restores_all k else false

restores_lem : (m n : ℕ) → restores m n ≡ true → {x : ℕ} → x < n → bit_xor (bit_xor x m) m ≡ x
unfolding restores
restores_lem m zero ok {x} lt = absurd (omega arith)
restores_lem m (suc n) ok {x} lt = elim (ℕ_discrete x n) [
  | yes same ↦ rw same (ground arith)
  | no other ↦ restores_lem m n (ground arith) (omega arith)
]

restores_all_lem : (k : ℕ) → restores_all k ≡ true → {m : ℕ} → m < k → restores m 256 ≡ true
unfolding restores_all
restores_all_lem zero ok {m} lt = absurd (omega arith)
restores_all_lem (suc k) ok {m} lt = elim (ℕ_discrete m k) [
  | yes same ↦ rw same (ground arith)
  | no other ↦ restores_all_lem k (ground arith) (omega arith)
]

restores_bytes : restores_all 256 ≡ true
unfolding restores restores_all
restores_bytes = refl

xor_twice : (x m : ℕ) → IsByte x → IsByte m → bit_xor (bit_xor x m) m ≡ x
xor_twice x m h k = restores_lem m 256 (restores_all_lem 256 restores_bytes k) h

mask_from_twice :
    (mask : List ℕ) (i : ℕ) (xs : List ℕ)
    → ((j : ℕ) → IsByte (get_or mask j 0))
    → All IsByte xs
    → mask_from mask i (mask_from mask i xs) ≡ xs
unfolding mask_from
mask_from_twice mask i [] bytes all_nil = refl
mask_from_twice mask i (x ∷ xs) bytes (all_cons h all) =
    ap₂ ◌∷◌ (xor_twice x (get_or mask (i % 4) 0) h (bytes (i % 4)))
      (mask_from_twice mask (i + 1) xs bytes all)

get_or-IsByte : (mask : List ℕ) → All IsByte mask → (j : ℕ) → IsByte (get_or mask j 0)
get_or-IsByte [] all_nil j = omega arith
get_or-IsByte (m ∷ mask) (all_cons h all) zero = h
get_or-IsByte (m ∷ mask) (all_cons h all) (suc j) = get_or-IsByte mask all j

pub mask_payload_twice :
    (mask xs : List ℕ)
    → All IsByte mask
    → All IsByte xs
    → mask_payload mask (mask_payload mask xs) ≡ xs
unfolding mask_payload
mask_payload_twice mask xs bytes all = mask_from_twice mask 0 xs (get_or-IsByte mask bytes) all

length-mask_from : (mask : List ℕ) (i : ℕ) (xs : List ℕ) → length (mask_from mask i xs) ≡ length xs
unfolding mask_from
length-mask_from mask i [] = refl
length-mask_from mask i (x ∷ xs) = omega (arith, length-mask_from mask (i + 1) xs)

pub length-mask_payload : (mask xs : List ℕ) → length (mask_payload mask xs) ≡ length xs
unfolding mask_payload
length-mask_payload mask xs = length-mask_from mask 0 xs
