-- ===== src/WebSocket/Wire.antt =====
-- Frames as RFC 6455 puts them on the wire, masked or not, and what `read_frame` of
-- src/utils/net/websocket/websocket.cpp makes of them. A server sends its frames without a mask.
use hft_system.Prelude.{
  ℕ, ◌+◌, ◌%◌, ◌≤◌, ◌<◌, ◌≡◌, ◌≢◌, refl, arith, ap, ◌∙◌, inl, inr, List, ◌∷◌, ◌++◌, length,
  append_assoc, Bool, true, false, Option, none, some, All, if◌then◌else◌, leb,
}
use hft_system.WebSocket.{
  Transport, got, frame, mask_payload, recv_exact, deliver, read_payload, read_mask, read_frame,
}
use hft_system.WebSocket.Mask.{IsByte, mask_payload_twice, length-mask_payload}
use hft_system.WebSocket.Stream.{IsStream, recv_exact-got}
use hft_system.WebSocket.RoundTrip.{wire_length, header, read_mask_lem, read_payload_lem}

pub record WireFrame : Type 0 where
  pub fin : Bool
  pub opcode : ℕ
  pub mask : Option (List ℕ)
  pub payload : List ℕ

-- The first byte: the bit for the last frame of a message, and the opcode.
abbrev pub first_byte : WireFrame → ℕ
first_byte f = (if f.fin then 128 else 0) + f.opcode % 16

-- What follows the first byte: the length, the mask if there is one, and the payload.
abbrev pub body_bytes : Option (List ℕ) → List ℕ → List ℕ
body_bytes none payload = wire_length 0 (length payload) ++ payload
body_bytes (some mask) payload =
    wire_length 128 (length payload) ++ (mask ++ mask_payload mask payload)

-- The bytes of a frame whose payload has at most 65535 bytes.
abbrev pub wire_bytes : WireFrame → List ℕ
wire_bytes f = first_byte f ∷ body_bytes f.mask f.payload

-- A mask has four bytes.
abbrev pub IsMask : Option (List ℕ) → Type 0
IsMask none = Unit {0}
IsMask (some mask) = (length mask ≡ 4) × All IsByte mask

module _ {W : Type 0} (t : Transport W) where
  read_mask_plain :
      (w : W) (b1 b2 n offset : ℕ)
      → n ≤ 8192
      → b2 < 128
      → read_mask t w b1 b2 n offset ≡ read_payload t w b1 none n offset
  unfolding read_mask
  read_mask_plain w b1 b2 n offset h k = ground arith

  read_payload_plain :
      (w w' : W) (b1 n offset : ℕ) (bs : List ℕ)
      → offset + n ≤ 8192
      → recv_exact t w n ≡ got bs w'
      → read_payload t w b1 none n offset ≡ deliver t w' b1 bs
  unfolding read_payload
  read_payload_plain w w' b1 n offset bs h e = ground arith

  deliver_frame :
      (w : W) (b1 opcode : ℕ) (fin : Bool) (payload : List ℕ)
      → b1 % 16 ≡ opcode
      → leb 128 b1 ≡ fin
      → opcode ≢ 9
      → deliver t w b1 payload ≡ record {
        read = frame (record { fin = fin; opcode = opcode; payload = payload });
        link = w;
        io_done = some (t.clock w);
      }
  unfolding deliver
  deliver_frame w b1 opcode fin payload low high ne = rw (deliver, low, high) (ground arith)

  deliver-first_byte :
      (w : W) (fin : Bool) (opcode : ℕ) (payload : List ℕ)
      → opcode % 16 ≢ 9
      → deliver t w ((if fin then 128 else 0) + opcode % 16) payload ≡ record {
        read = frame (record { fin = fin; opcode = opcode % 16; payload = payload });
        link = w;
        io_done = some (t.clock w);
      }
  deliver-first_byte w true opcode payload ne =
      deliver_frame w (128 + opcode % 16) (opcode % 16) true payload (omega arith) (ground arith) ne
  deliver-first_byte w false opcode payload ne =
      deliver_frame w (0 + opcode % 16) (opcode % 16) false payload (omega arith) (ground arith) ne

  module _ (stream : W → List ℕ) (laws : IsStream t stream) where
    read_body :
        (w : W) (b1 : ℕ) (mask : Option (List ℕ)) (payload rest : List ℕ)
        → stream w ≡ b1 ∷ (body_bytes mask payload ++ rest)
        → IsMask mask
        → All IsByte payload
        → length payload ≤ 8188
        → (w' : W) × (read_frame t w ≡ deliver t w' b1 payload) × (stream w' ≡ rest)
    read_body w b1 none payload rest e ok all small =
        let n = length payload in
        let (w1, b2, offset, bounds, place, headed, left) =
          header t stream laws w b1 0 n (payload ++ rest) (inl refl) (omega arith)
            (e ∙ ap (λ l. b1 ∷ l) (append_assoc (wire_length 0 n) payload rest)) in
        let (w2, has_payload, left2) = recv_exact-got t stream laws w1 n payload rest left refl in
        (
          w2,
          headed
              ∙ read_mask_plain w1 b1 b2 n offset (omega arith) (omega arith)
              ∙ read_payload_plain w1 w2 b1 n offset payload (omega arith) has_payload,
          left2,
        )
    read_body w b1 (some mask) payload rest e (four, bytes) all small =
        let n = length payload in
        let masked = mask_payload mask payload in
        let (w1, b2, offset, bounds, place, headed, left) =
          header t stream laws w b1 128 n ((mask ++ masked) ++ rest) (inr refl) (omega arith)
            (e ∙ ap (λ l. b1 ∷ l) (append_assoc (wire_length 128 n) (mask ++ masked) rest)) in
        let (w2, has_mask, left2) =
          recv_exact-got t stream laws w1 4 mask (masked ++ rest)
            (left ∙ append_assoc mask masked rest) four in
        let (w3, has_payload, left3) =
          recv_exact-got t stream laws w2 n masked rest left2 (length-mask_payload mask payload) in
        (
          w3,
          headed
              ∙ read_mask_lem t w1 w2 b1 b2 n offset mask (omega arith) bounds.0 has_mask
              ∙ read_payload_lem t w2 w3 b1 n offset mask masked (omega arith) has_payload
              ∙ ap (deliver t w3 b1) (mask_payload_twice mask payload bytes all),
          left3,
        )

    -- A frame on the wire is read as it was sent, with or without a mask.
    pub read_frame-wire_bytes :
        (w : W) (f : WireFrame) (rest : List ℕ)
        → stream w ≡ wire_bytes f ++ rest
        → IsMask f.mask
        → All IsByte f.payload
        → length f.payload ≤ 8188
        → f.opcode % 16 ≢ 9
        → (w' : W) × (read_frame t w ≡ record {
          read = frame (record { fin = f.fin; opcode = f.opcode % 16; payload = f.payload });
          link = w';
          io_done = some (t.clock w');
        })
          × (stream w' ≡ rest)
    read_frame-wire_bytes w f rest e ok all small other =
        let (w', read, left) = read_body w (first_byte f) f.mask f.payload rest e ok all small in
        (w', read ∙ deliver-first_byte w' f.fin f.opcode f.payload other, left)
