-- ===== src/WebSocket/Tests.antt =====
-- Frames of src/utils/net/websocket/websocket.cpp over a transport that delivers one byte at a time.
use hft_system.Prelude.{
  ℕ, ◌≡◌, ◌↔◌, refl, arith, List, [], ◌∷◌, ◌++◌, length, replicate, length-replicate, true, some,
  all_nil, all_cons,
}
use hft_system.WebSocket.{frame, overflow, no_frame, mask_payload, frame_bytes, read_frame}
use hft_system.WebSocket.Handshake.{ascii, is_accepted, is_accepted_iff}
use hft_system.WebSocket.ByBytes.{by_bytes, by_bytes-IsStream, mask, mask-IsByte}
use hft_system.WebSocket.RoundTrip.{
  read_frame-frame_bytes, read_frame_overflow, read_frame_too_long,
}

abbrev text : List ℕ
text = b'h' ∷ b'i' ∷ []

abbrev wire : List ℕ
wire = frame_bytes 1 mask text ++ []

read_frame-frame_bytes_example :
    (w' : List ℕ) × (read_frame by_bytes wire ≡ record {
      read = frame (record { fin = true; opcode = 1; payload = text });
      link = w';
      io_done = some (length w');
    })
    × (w' ≡ [])
read_frame-frame_bytes_example =
    read_frame-frame_bytes by_bytes (λ w. w) by_bytes-IsStream wire 1 mask text [] refl refl
      mask-IsByte (all_cons (omega arith) (all_cons (omega arith) all_nil)) (omega arith)
      (omega arith)

abbrev wire_of : List ℕ → List ℕ
wire_of payload = frame_bytes 2 mask payload ++ []

abbrev zeros : List ℕ
zeros = replicate 8190 0

length-zeros : length zeros ≡ 8190
length-zeros = length-replicate {A = ℕ} 8190 0

read_frame_overflow_example : (read_frame by_bytes (wire_of zeros)).read ≡ overflow
read_frame_overflow_example =
    read_frame_overflow by_bytes (λ w. w) by_bytes-IsStream (wire_of zeros) 2 mask zeros [] refl
      refl (omega (arith, length-zeros)) (omega (arith, length-zeros))

abbrev response : List ℕ
response = ascii "HTTP/1.1 101 Switching Protocols\r\nUpgrade: websocket\r\n\r\n"

is_accepted_iff_example : (is_accepted response ≡ true) ↔ (
    ((before : List ℕ) × (after : List ℕ) × (response ≡ before ++ (ascii "HTTP/1.1 101" ++ after)))
    × ((before : List ℕ) × (after : List ℕ) × (response
          ≡ before ++ (ascii "Upgrade: websocket" ++ after))))
is_accepted_iff_example = is_accepted_iff response

abbrev many : List ℕ
many = replicate 9000 0

length-many : length many ≡ 9000
length-many = length-replicate {A = ℕ} 9000 0

read_frame_too_long_example :
    ((read_frame by_bytes (wire_of many)).read ≡ no_frame)
    × ((read_frame by_bytes (wire_of many)).link ≡ (mask ++ mask_payload mask many) ++ [])
read_frame_too_long_example =
    read_frame_too_long by_bytes (λ w. w) by_bytes-IsStream (wire_of many) 2 mask many [] refl
      (omega (arith, length-many)) (omega (arith, length-many))
