-- ===== src/WebSocket/RoundTrip.antt =====
-- What `read_frame` of src/utils/net/websocket/websocket.cpp makes of the bytes that `send_frame`
-- builds.
use hft_system.Prelude.{
  ℕ, ◌+◌, ◌/◌, ◌%◌, ◌≤◌, ◌<◌, ◌≡◌, ◌≢◌, refl, arith, ap, ◌∙◌, ◌⊎◌, inl, inr, List, [], ◌∷◌, ◌++◌,
  length, get_or, append_assoc, true, none, some, All, dec_lt, if◌then◌else◌, leb,
}
use hft_system.WebSocket.{
  Transport, got, frame, no_frame, overflow, nothing, be_bytes, be_value, length_bytes,
  mask_payload, frame_bytes, recv_exact, deliver, read_payload, read_mask, read_extended,
  read_length, read_frame,
}
use hft_system.WebSocket.Mask.{IsByte, mask_payload_twice, length-mask_payload}
use hft_system.WebSocket.Stream.{IsStream, recv_exact-got}

-- The length bytes of a frame of at most 65535 bytes; `m` is 128 if the frame is masked, else 0.
abbrev pub wire_length : ℕ → ℕ → List ℕ
wire_length m n = if leb n 125 then (m + n) ∷ [] else (m + 126) ∷ n / 256 % 256 ∷ n % 256 ∷ []

wire_length_short : (m n : ℕ) → n ≤ 125 → wire_length m n ≡ (m + n) ∷ []
wire_length_short m n h = ground arith

wire_length_long : (m n : ℕ) → 125 < n → wire_length m n ≡ (m + 126) ∷ n / 256 % 256 ∷ n % 256 ∷ []
wire_length_long m n h = ground arith

length_bytes_lem : (n : ℕ) → n ≤ 65535 → length_bytes n ≡ wire_length 128 n
unfolding length_bytes be_bytes
length_bytes_lem n h = ground arith

be_value_two : (n : ℕ) → n ≤ 65535 → be_value 0 (n / 256 % 256 ∷ n % 256 ∷ []) ≡ n
unfolding be_value
be_value_two n h = omega arith

module _ {W : Type 0} (t : Transport W) where
  read_frame_lem :
      (w w' : W) (bs : List ℕ)
      → recv_exact t w 2 ≡ got bs w'
      → read_frame t w ≡ read_length t w' (get_or bs 0 0) (get_or bs 1 0)
  unfolding read_frame
  read_frame_lem w w' bs e = rw (read_frame, e) refl

  read_length_short :
      (w : W) (b1 m n : ℕ)
      → (m ≡ 0) ⊎ (m ≡ 128)
      → n ≤ 125
      → read_length t w b1 (m + n) ≡ read_mask t w b1 (m + n) n 2
  unfolding read_length
  read_length_short w b1 m n bit h =
      let e : (m + n) % 128 ≡ n = omega arith in rw (read_length, e) (ground arith)

  read_extended_lem :
      (w w' : W) (b1 b2 : ℕ) (bs : List ℕ)
      → recv_exact t w 2 ≡ got bs w'
      → read_extended t w b1 b2 2 ≡ read_mask t w' b1 b2 (be_value 0 bs) 4
  unfolding read_extended
  read_extended_lem w w' b1 b2 bs e = rw (read_extended, e) refl

  read_length_long :
      (w w' : W) (b1 m : ℕ) (bs : List ℕ)
      → (m ≡ 0) ⊎ (m ≡ 128)
      → recv_exact t w 2 ≡ got bs w'
      → read_length t w b1 (m + 126) ≡ read_mask t w' b1 (m + 126) (be_value 0 bs) 4
  unfolding read_length
  read_length_long w w' b1 m bs bit got_two =
      let e : (m + 126) % 128 ≡ 126 = omega arith in
      rw (read_length, e) (read_extended_lem w w' b1 (m + 126) bs got_two)

  pub read_mask_lem :
      (w w' : W) (b1 b2 n offset : ℕ) (mask : List ℕ)
      → n ≤ 8192
      → 128 ≤ b2
      → recv_exact t w 4 ≡ got mask w'
      → read_mask t w b1 b2 n offset ≡ read_payload t w' b1 (some mask) n offset
  unfolding read_mask
  read_mask_lem w w' b1 b2 n offset mask h k e = ground arith

  read_mask_drop :
      (w : W) (b1 b2 n offset : ℕ) → 8192 < n → read_mask t w b1 b2 n offset ≡ nothing w
  unfolding read_mask
  read_mask_drop w b1 b2 n offset h = ground arith

  pub read_payload_lem :
      (w w' : W) (b1 n offset : ℕ) (mask bs : List ℕ)
      → offset + n ≤ 8192
      → recv_exact t w n ≡ got bs w'
      → read_payload t w b1 (some mask) n offset ≡ deliver t w' b1 (mask_payload mask bs)
  unfolding read_payload
  read_payload_lem w w' b1 n offset mask bs h e = ground arith

  read_payload_over :
      (w : W) (b1 n offset : ℕ) (mask : List ℕ)
      → 8192 < offset + n
      → read_payload t w b1 (some mask) n offset
        ≡ record { read = overflow; link = w; io_done = none }
  unfolding read_payload
  read_payload_over w b1 n offset mask h = ground arith

  deliver_lem :
      (w : W) (opcode : ℕ) (payload : List ℕ)
      → opcode % 16 ≢ 9
      → deliver t w (128 + opcode % 16) payload ≡ record {
        read = frame (record { fin = true; opcode = opcode % 16; payload = payload });
        link = w;
        io_done = some (t.clock w);
      }
  unfolding deliver
  deliver_lem w opcode payload ne =
      let e : (128 + opcode % 16) % 16 ≡ opcode % 16 = omega arith in rw (deliver, e) (ground arith)

  module _ (stream : W → List ℕ) (laws : IsStream t stream) where
    -- The header of a frame of `n` bytes, up to the mask or the payload.
    pub header :
        (w : W) (b1 m n : ℕ) (rest : List ℕ)
        → (m ≡ 0) ⊎ (m ≡ 128)
        → n ≤ 65535
        → stream w ≡ (b1 ∷ wire_length m n) ++ rest
        → (w' : W) × (b2 : ℕ) × (offset : ℕ) × ((m ≤ b2) × (b2 < m + 128))
          × (((n ≤ 125) × (offset ≡ 2)) ⊎ ((125 < n) × (offset ≡ 4)))
          × (read_frame t w ≡ read_mask t w' b1 b2 n offset)
          × (stream w' ≡ rest)
    header w b1 m n rest bit small e = elim (dec_lt 125 n) [
      | no ge ↦
          let (w', two, left) =
            recv_exact-got t stream laws w 2 (b1 ∷ (m + n) ∷ []) rest
              (e ∙ ap (λ l. (b1 ∷ l) ++ rest) (wire_length_short m n (omega arith))) refl in
          (
            w',
            m + n,
            2,
            (omega arith, omega arith),
            inl (omega arith, refl),
            read_frame_lem w w' _ two ∙ read_length_short w' b1 m n bit (omega arith),
            left,
          )
      | yes lt ↦
          let digits : List ℕ = n / 256 % 256 ∷ n % 256 ∷ [] in
          let (w', two, left) =
            recv_exact-got t stream laws w 2 (b1 ∷ (m + 126) ∷ []) (digits ++ rest)
              (e ∙ ap (λ l. (b1 ∷ l) ++ rest) (wire_length_long m n lt)) refl in
          let (w'', more, left') = recv_exact-got t stream laws w' 2 digits rest left refl in
          (
            w'',
            m + 126,
            4,
            (omega arith, omega arith),
            inr (lt, refl),
            read_frame_lem w w' _ two
                ∙ read_length_long w' w'' b1 m digits bit more
                ∙ ap (λ k. read_mask t w'' b1 (m + 126) k 4) (be_value_two n small),
            left',
          )
    ]

    -- The same for the header that `send_frame` writes.
    sent_header :
        (w : W) (b1 n : ℕ) (rest : List ℕ)
        → n ≤ 65535
        → stream w ≡ (b1 ∷ length_bytes n) ++ rest
        → (w' : W) × (b2 : ℕ) × (offset : ℕ) × (128 ≤ b2)
          × (((n ≤ 125) × (offset ≡ 2)) ⊎ ((125 < n) × (offset ≡ 4)))
          × (read_frame t w ≡ read_mask t w' b1 b2 n offset)
          × (stream w' ≡ rest)
    sent_header w b1 n rest small e =
        let (w', b2, offset, bounds, place, headed, left) =
          header w b1 128 n rest (inr refl) small
            (e ∙ ap (λ l. (b1 ∷ l) ++ rest) (length_bytes_lem n small)) in
        (w', b2, offset, bounds.0, place, headed, left)

    -- If the stream of the transport, in pieces of any length, begins with the bytes that
    -- send_frame builds for an opcode other than ping, a mask of 4 bytes and a payload of at most
    -- 8188 bytes, then read_frame gives a final frame with that opcode and payload, and leaves the
    -- rest of the stream.
    pub read_frame-frame_bytes :
        (w : W) (opcode : ℕ) (mask payload rest : List ℕ)
        → stream w ≡ frame_bytes opcode mask payload ++ rest
        → length mask ≡ 4
        → All IsByte mask
        → All IsByte payload
        → length payload ≤ 8188
        → opcode % 16 ≢ 9
        → (w' : W) × (read_frame t w ≡ record {
          read = frame (record { fin = true; opcode = opcode % 16; payload = payload });
          link = w';
          io_done = some (t.clock w');
        })
          × (stream w' ≡ rest)
    unfolding frame_bytes
    read_frame-frame_bytes w opcode mask payload rest e four bytes all small other =
        let b1 = 128 + opcode % 16 in
        let n = length payload in
        let masked = mask_payload mask payload in
        let (w1, b2, offset, long, place, headed, left) =
          sent_header w b1 n ((mask ++ masked) ++ rest) (omega arith)
            (e ∙ append_assoc (b1 ∷ length_bytes n) (mask ++ masked) rest) in
        let (w2, has_mask, left2) =
          recv_exact-got t stream laws w1 4 mask (masked ++ rest)
            (left ∙ append_assoc mask masked rest) four in
        let (w3, has_payload, left3) =
          recv_exact-got t stream laws w2 n masked rest left2 (length-mask_payload mask payload) in
        (
          w3,
          headed
              ∙ read_mask_lem w1 w2 b1 b2 n offset mask (omega arith) long has_mask
              ∙ read_payload_lem w2 w3 b1 n offset mask masked (omega arith) has_payload
              ∙ deliver_lem w3 opcode (mask_payload mask masked) other
              ∙ ap
                  (λ l. record {
                    read = frame (record { fin = true; opcode = opcode % 16; payload = l });
                    link = w3;
                    io_done = some (t.clock w3);
                  })
                  (mask_payload_twice mask payload bytes all),
          left3,
        )

    -- If the stream begins with the bytes of a masked frame whose payload has 8189 to 8192 bytes,
    -- read_frame reads the payload into the receive buffer beyond its end.
    pub read_frame_overflow :
        (w : W) (opcode : ℕ) (mask payload rest : List ℕ)
        → stream w ≡ frame_bytes opcode mask payload ++ rest
        → length mask ≡ 4
        → 8188 < length payload
        → length payload ≤ 8192
        → (read_frame t w).read ≡ overflow
    unfolding frame_bytes
    read_frame_overflow w opcode mask payload rest e four large small =
        let b1 = 128 + opcode % 16 in
        let n = length payload in
        let masked = mask_payload mask payload in
        let (w1, b2, offset, long, place, headed, left) =
          sent_header w b1 n ((mask ++ masked) ++ rest) (omega arith)
            (e ∙ append_assoc (b1 ∷ length_bytes n) (mask ++ masked) rest) in
        let (w2, has_mask, left2) =
          recv_exact-got t stream laws w1 4 mask (masked ++ rest)
            (left ∙ append_assoc mask masked rest) four in
        ap (λ r. r.read)
          (headed
            ∙ read_mask_lem w1 w2 b1 b2 n offset mask (omega arith) long has_mask
            ∙ read_payload_over w2 b1 n offset mask (omega arith))

    -- If the stream begins with the bytes of a frame whose payload has 8193 to 65535 bytes,
    -- read_frame gives no frame and leaves the mask and the payload in the stream.
    pub read_frame_too_long :
        (w : W) (opcode : ℕ) (mask payload rest : List ℕ)
        → stream w ≡ frame_bytes opcode mask payload ++ rest
        → 8192 < length payload
        → length payload ≤ 65535
        → ((read_frame t w).read ≡ no_frame)
          × (stream (read_frame t w).link ≡ (mask ++ mask_payload mask payload) ++ rest)
    unfolding frame_bytes
    read_frame_too_long w opcode mask payload rest e large small =
        let b1 = 128 + opcode % 16 in
        let n = length payload in
        let (w1, b2, offset, long, place, headed, left) =
          sent_header w b1 n ((mask ++ mask_payload mask payload) ++ rest) small
            (e ∙ append_assoc (b1 ∷ length_bytes n) (mask ++ mask_payload mask payload) rest) in
        let dropped = headed ∙ read_mask_drop w1 b1 b2 n offset large in
        (ap (λ r. r.read) dropped, ap (λ r. stream r.link) dropped ∙ left)
