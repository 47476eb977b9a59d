-- ===== src/WebSocket.antt =====
-- `WebSocket` of include/utils/net/websocket/websocket.h and src/utils/net/websocket/websocket.cpp.
-- The transport (`TLSClient`), the random bytes (OpenSSL) and the time stamp counter are parameters.
-- Bytes are numbers below 256: `b & 0x80` is a test against 128, `b & 0x0F` and `b & 0x7F` are
-- remainders, and `<<` with `|` of disjoint digits is a sum. The receive buffer is read only where it
-- was just written, so the model keeps the bytes and checks the bounds of each write.
mod Tests
pub mod Mask
pub mod Stream
pub mod RoundTrip
pub mod Wire
pub mod Handshake
pub mod ByBytes
use hft_system.Prelude.{
  ℕ, zero, suc, ◌+◌, ◌-◌, ◌*◌, ◌/◌, ◌%◌, ◌^◌, ◌==◌, ltb, leb, not, ◌&&◌, if◌then◌else◌, Bool, true,
  false, List, [], ◌∷◌, ◌++◌, length, get_or, Option, none, some,
}
use Prim.Native.Nat.{bit_xor}

-- What the class uses of the code it calls. `recv` gives the bytes that one call of `SSL_read` got,
-- none for a result of at most 0; `send` gives the result of `SSL_write`.
pub record Transport (W : Type 0) : Type 0 where
  pub recv : W → ℕ → List ℕ × W
  pub send : W → List ℕ → ℕ × W
  pub random : W → ℕ → List ℕ × W
  pub clock : W → ℕ

abbrev pub max_frame_size : ℕ
max_frame_size = 8192

-- `WebSocketFrame`
pub record WebSocketFrame : Type 0 where
  pub fin : Bool
  pub opcode : ℕ
  pub payload : List ℕ

-- `data[i] ^= mask[i % 4]`, from `i` on.
pub mask_from : List ℕ → ℕ → List ℕ → List ℕ
mask_from mask i [] = []
mask_from mask i (b ∷ bs) = bit_xor b (get_or mask (i % 4) 0) ∷ mask_from mask (i + 1) bs

-- `mask_payload`
pub mask_payload : List ℕ → List ℕ → List ℕ
unfolding mask_from
mask_payload mask payload = mask_from mask 0 payload

-- The digits of a number, the most significant of `n` first.
pub be_bytes : ℕ → ℕ → List ℕ
be_bytes zero v = []
be_bytes (suc n) v = v / 256 ^ n % 256 ∷ be_bytes n v

-- The length bytes of a frame.
pub length_bytes : ℕ → List ℕ
unfolding be_bytes
length_bytes len =
    if leb len 125
    then (128 + len) ∷ []
    else if leb len 65535
    then 254 ∷ be_bytes 2 len
    else 255 ∷ be_bytes 8 len

-- `send_buf` at the end of `send_frame`.
pub frame_bytes : ℕ → List ℕ → List ℕ → List ℕ
unfolding length_bytes mask_payload
frame_bytes opcode mask payload =
    ((128 + opcode % 16) ∷ length_bytes (length payload)) ++ (mask ++ mask_payload mask payload)

-- `(payload_len << 8) | byte` over the bytes.
pub be_value : ℕ → List ℕ → ℕ
be_value acc [] = acc
be_value acc (b ∷ bs) = be_value (acc * 256 + b) bs

-- What a read of exactly so many bytes gives.
pub data Got (W : Type 0) : Type 0 where
  got : List ℕ → W → Got W
  closed : W → Got W

-- What `read_frame` gives; `overflow` stands for a read into the receive buffer that may write beyond
-- its end.
pub data Read : Type 0 where
  frame : WebSocketFrame → Read
  no_frame overflow : Read

-- With the transport after it, and what it stores in `last_io_done_tsc_`, if it does.
abbrev pub Outcome : Type 0 → Type 0
Outcome W = record { read : Read; link : W; io_done : Option ℕ }

abbrev pub nothing : {W : Type 0} → W → Outcome W
nothing w = record { read = no_frame; link = w; io_done = none }

module _ {W : Type 0} (t : Transport W) where
  -- `send_frame`
  pub send_frame : W → List ℕ → ℕ → Bool × W
  unfolding frame_bytes
  send_frame w payload opcode =
      let (mask, w') = t.random w 4 in
      let buf = frame_bytes opcode mask payload in
      let (sent, w'') = t.send w' buf in (sent == length buf, w'')

  -- `send_control_frame`
  pub send_control_frame : W → ℕ → List ℕ → Bool × W
  unfolding mask_payload
  send_control_frame w opcode payload =
      let (mask, w') = t.random w 4 in
      let buf =
        ((128 + opcode % 16) ∷ (128 + length payload) ∷ [])
        ++ (mask ++ mask_payload mask payload) in
      let (sent, w'') = t.send w' buf in
      if ltb 125 (length payload) then (false, w) else (sent == length buf, w'')

  -- The loop of `recv_exact` with the bytes so far, of `missing` more at most `fuel` calls.
  pub recv_loop : ℕ → W → ℕ → List ℕ → Got W
  recv_loop fuel w zero acc = got acc w
  recv_loop zero w (suc missing) acc = closed w
  recv_loop (suc fuel) w (suc missing) acc = elim (t.recv w (suc missing)).0 [
    | [] ↦ closed (t.recv w (suc missing)).1
    | b ∷ bs ↦
        recv_loop fuel (t.recv w (suc missing)).1 (suc missing - length (b ∷ bs)) (acc ++ (b ∷ bs))
  ]

  -- `recv_exact`: each call gets a byte, so `len` calls are enough.
  pub recv_exact : W → ℕ → Got W
  unfolding recv_loop
  recv_exact w len = recv_loop len w len []

  -- The end of `read_frame`: a ping is answered and gives no frame.
  pub deliver : W → ℕ → List ℕ → Outcome W
  unfolding send_control_frame
  deliver w byte1 payload =
      if byte1 % 16 == 9
      then record {
        read = no_frame;
        link = (send_control_frame w 10 payload).1;
        io_done = some (t.clock w);
      }
      else record {
        read = frame (record { fin = leb 128 byte1; opcode = byte1 % 16; payload = payload });
        link = w;
        io_done = some (t.clock w);
      }

  -- The payload; the mask is none if the frame is not masked.
  pub read_payload : W → ℕ → Option (List ℕ) → ℕ → ℕ → Outcome W
  unfolding recv_exact deliver mask_payload
  read_payload w byte1 mask payload_len offset =
      if ltb max_frame_size (offset + payload_len)
      then record { read = overflow; link = w; io_done = none }
      else elim (recv_exact w payload_len) [
        | closed w' ↦ nothing w'
        | got bs w' ↦ deliver w' byte1 (elim mask [ none ↦ bs | some m ↦ mask_payload m bs ])
      ]

  -- From the length on: too long a frame is dropped, and the mask is read.
  pub read_mask : W → ℕ → ℕ → ℕ → ℕ → Outcome W
  unfolding read_payload recv_exact
  read_mask w byte1 byte2 payload_len offset =
      if ltb max_frame_size payload_len
      then nothing w
      else if leb 128 byte2
      then elim (recv_exact w 4) [
        | closed w' ↦ nothing w'
        | got mask w' ↦ read_payload w' byte1 (some mask) payload_len offset
      ]
      else read_payload w byte1 none payload_len offset

  -- An extended length of `n` bytes.
  pub read_extended : W → ℕ → ℕ → ℕ → Outcome W
  unfolding read_mask recv_exact be_value
  read_extended w byte1 byte2 n = elim (recv_exact w n) [
    | closed w' ↦ nothing w'
    | got bs w' ↦ read_mask w' byte1 byte2 (be_value 0 bs) (2 + n)
  ]

  pub read_length : W → ℕ → ℕ → Outcome W
  unfolding read_extended read_mask
  read_length w byte1 byte2 =
      if byte2 % 128 == 126
      then read_extended w byte1 byte2 2
      else if byte2 % 128 == 127
      then read_extended w byte1 byte2 8
      else read_mask w byte1 byte2 (byte2 % 128) 2

  -- `read_frame`
  pub read_frame : W → Outcome W
  unfolding recv_exact read_length
  read_frame w = elim (recv_exact w 2) [
    | closed w' ↦ nothing w'
    | got bs w' ↦ read_length w' (get_or bs 0 0) (get_or bs 1 0)
  ]
