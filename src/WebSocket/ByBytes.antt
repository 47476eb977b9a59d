-- ===== src/WebSocket/ByBytes.antt =====
-- A transport for src/utils/net/websocket/websocket.cpp that delivers one byte at a time.
use hft_system.Prelude.{
  ℕ, zero, suc, ◌≤◌, ◌<◌, ◌≡◌, refl, arith, List, [], ◌∷◌, ◌++◌, length, replicate, All, all_nil,
  all_cons,
}
use hft_system.WebSocket.{Transport}
use hft_system.WebSocket.Stream.{IsStream}

abbrev pub recv_one : List ℕ → ℕ → List ℕ × List ℕ
recv_one [] len = ([], [])
recv_one (b ∷ bs) zero = ([], b ∷ bs)
recv_one (b ∷ bs) (suc len) = (b ∷ [], bs)

abbrev pub by_bytes : Transport (List ℕ)
by_bytes = record {
  recv = recv_one;
  send = λ w buf. (length buf, w);
  random = λ w n. (replicate n 7, w);
  clock = length;
}

delivers :
    (w : List ℕ) (len : ℕ) → 0 < len → 0 < length w → w ≡ (recv_one w len).0 ++ (recv_one w len).1
delivers [] len h k = refl
delivers (b ∷ w) zero h k = refl
delivers (b ∷ w) (suc len) h k = refl

some_bytes : (w : List ℕ) (len : ℕ) → 0 < len → 0 < length w → 0 < length (recv_one w len).0
some_bytes [] len h k = absurd (omega arith)
some_bytes (b ∷ w) zero h k = absurd (omega arith)
some_bytes (b ∷ w) (suc len) h k = omega arith

no_more : (w : List ℕ) (len : ℕ) → 0 < len → 0 < length w → length (recv_one w len).0 ≤ len
no_more [] len h k = omega arith
no_more (b ∷ w) zero h k = omega arith
no_more (b ∷ w) (suc len) h k = omega arith

pub by_bytes-IsStream : IsStream by_bytes (λ w. w)
by_bytes-IsStream = record { delivers = delivers; some_bytes = some_bytes; no_more = no_more }

abbrev pub mask : List ℕ
mask = 1 ∷ 2 ∷ 3 ∷ 255 ∷ []

pub mask-IsByte : All (λ b. b < 256) mask
mask-IsByte =
    all_cons (omega arith)
      (all_cons (omega arith) (all_cons (omega arith) (all_cons (omega arith) all_nil)))
