-- ===== src/WebSocket/Stream.antt =====
-- `recv_exact` of src/utils/net/websocket/websocket.cpp over a transport that delivers a stream of
-- bytes in pieces of any length.
use hft_system.Prelude.{
  ℕ, zero, suc, ◌+◌, ◌-◌, ◌≤◌, ◌<◌, ◌≡◌, refl, arith, sym, ap, ◌∙◌, List, [], ◌∷◌, ◌++◌, length,
  append_assoc, append-nil, length-append, ◌⊎◌, inl, inr,
}
use hft_system.WebSocket.{Transport, got, recv_loop, recv_exact}

-- As `SSL_read` is documented: while bytes are to come, a call for some gets one at least and no more
-- than it asks for, and the others stay in the stream.
pub record IsStream {W : Type 0} (t : Transport W) (stream : W → List ℕ) : Type 0 where
  pub delivers :
      (w : W) (len : ℕ)
      → 0 < len
      → 0 < length (stream w)
      → stream w ≡ (t.recv w len).0 ++ stream (t.recv w len).1
  pub some_bytes : (w : W) (len : ℕ) → 0 < len → 0 < length (stream w) → 0 < length (t.recv w len).0
  pub no_more : (w : W) (len : ℕ) → 0 < len → 0 < length (stream w) → length (t.recv w len).0 ≤ len

-- Two ways to cut a list.
split_append :
    (xs ys bs rest : List ℕ)
    → xs ++ ys ≡ bs ++ rest
    → length xs ≤ length bs
    → (bs' : List ℕ) × (bs ≡ xs ++ bs') × (ys ≡ bs' ++ rest) × (length xs + length bs' ≡ length bs)
split_append [] ys bs rest e h = (bs, refl, e, omega arith)
split_append (x ∷ xs) ys [] rest e h = absurd (omega arith)
split_append (x ∷ xs) ys (b ∷ bs) rest e h =
    let (bs', cut, after, len) = split_append xs ys bs rest (cc) (omega arith) in
    (bs', (cc), after, omega arith)

List-cases : (l : List ℕ) → (l ≡ []) ⊎ ((x : ℕ) × (xs : List ℕ) × (l ≡ x ∷ xs))
List-cases [] = inl refl
List-cases (x ∷ xs) = inr (x, xs, refl)

module _ {W : Type 0} (t : Transport W) where
  recv_loop_lem :
      (fuel : ℕ) (w : W) (missing : ℕ) (acc : List ℕ)
      → 0 < length (t.recv w (suc missing)).0
      → recv_loop t (suc fuel) w (suc missing) acc
        ≡ recv_loop t fuel
            (t.recv w (suc missing)).1
            (suc missing - length (t.recv w (suc missing)).0)
            (acc ++ (t.recv w (suc missing)).0)
  unfolding recv_loop
  recv_loop_lem fuel w missing acc h = elim (List-cases (t.recv w (suc missing)).0) [
    | inl e ↦ absurd (omega (arith, ap length e))
    | inr (x, xs, e) ↦ rw (recv_loop, e) refl
  ]

  module _ (stream : W → List ℕ) (laws : IsStream t stream) where
    recv_loop-got :
        (fuel : ℕ) (w : W) (missing : ℕ) (acc bs rest : List ℕ)
        → stream w ≡ bs ++ rest
        → length bs ≡ missing
        → missing ≤ fuel
        → (w' : W) × (recv_loop t fuel w missing acc ≡ got (acc ++ bs) w') × (stream w' ≡ rest)
    unfolding recv_loop
    recv_loop-got zero w zero acc [] rest e n h = (w, ap (λ l. got l w) (sym (append-nil acc)), e)
    recv_loop-got (suc fuel) w zero acc [] rest e n h =
        (w, ap (λ l. got l w) (sym (append-nil acc)), e)
    recv_loop-got fuel w zero acc (b ∷ bs) rest e n h = absurd (omega arith)
    recv_loop-got zero w (suc missing) acc bs rest e n h = absurd (omega arith)
    recv_loop-got (suc fuel) w (suc missing) acc bs rest e n h =
        let (piece, w') = t.recv w (suc missing) in
        let more : 0 < length (stream w) = omega (arith, ap length e, length-append bs rest) in
        let whole = laws.delivers w (suc missing) (omega arith) more in
        let some_of = laws.some_bytes w (suc missing) (omega arith) more in
        let (bs', cut, after, len) =
          split_append piece (stream w') bs rest (sym whole ∙ e)
            (omega (arith, laws.no_more w (suc missing) (omega arith) more)) in
        let (w'', reads, left) =
          recv_loop-got fuel w' (suc missing - length piece) (acc ++ piece) bs' rest after
            (omega arith) (omega arith) in
        (
          w'',
          recv_loop_lem fuel w missing acc some_of
              ∙ reads
              ∙ ap (λ l. got l w'') (append_assoc acc piece bs' ∙ ap (λ l. acc ++ l) (sym cut)),
          left,
        )

    -- However the bytes arrive, a read gives as many as it was asked for, and no others are lost.
    pub recv_exact-got :
        (w : W) (len : ℕ) (bs rest : List ℕ)
        → stream w ≡ bs ++ rest
        → length bs ≡ len
        → (w' : W) × (recv_exact t w len ≡ got bs w') × (stream w' ≡ rest)
    unfolding recv_exact
    recv_exact-got w len bs rest e n = recv_loop-got len w len [] bs rest e n (omega arith)
