-- ===== src/WebSocket/Handshake.antt =====
-- `perform_handshake` of src/utils/net/websocket/websocket.cpp.
use Prim.Native.Char.{code}
use Prim.Native.String.{String}
use hft_system.Prelude.{
  ℕ, ◌==◌, ◌≡◌, refl, ap, ap₂, arith, ◌↔◌, inl, inr, Bool, true, false, ◌&&◌, ◌||◌, if◌then◌else◌,
  List, [], ◌∷◌, ◌++◌, Bool-cases,
}
use hft_system.WebSocket.{Transport}

-- A string literal, as the program sends it.
abbrev pub ascii : String → List ℕ
ascii (String.◌∷◌ letter rest) = code letter ∷ ascii rest
ascii String.[] = []

-- The end of a line, `\r\n`.
abbrev line_end : List ℕ
line_end = 13 ∷ 10 ∷ []

-- A line `name: value`, if the value is not empty.
abbrev optional_line : List ℕ → List ℕ → List ℕ
optional_line name [] = []
optional_line name (c ∷ cs) = name ++ (c ∷ cs) ++ line_end

-- The text that is sent.
pub handshake_request : List ℕ → List ℕ → List ℕ → List ℕ → List ℕ → List ℕ
handshake_request host websocket_key api_key path protocol =
    (ascii "GET " ++ path ++ ascii " HTTP/1.1" ++ line_end)
    ++ (ascii "Host: " ++ host ++ line_end)
    ++ (ascii "Upgrade: websocket" ++ line_end)
    ++ (ascii "Connection: Upgrade" ++ line_end)
    ++ (ascii "Sec-WebSocket-Key: " ++ websocket_key ++ line_end)
    ++ (ascii "Sec-WebSocket-Version: 13" ++ line_end)
    ++ optional_line (ascii "Sec-WebSocket-Protocol: ") protocol
    ++ optional_line (ascii "X-MBX-APIKEY: ") api_key
    ++ line_end

unfoldable pub starts_with : List ℕ → List ℕ → Bool
starts_with [] bs = true
starts_with (n ∷ ns) [] = false
starts_with (n ∷ ns) (b ∷ bs) = n == b && starts_with ns bs

-- `response.find(needle) != std::string::npos`
pub contains : List ℕ → List ℕ → Bool
unfolding starts_with
contains needle [] = starts_with needle []
contains needle (b ∷ bs) = starts_with needle (b ∷ bs) || contains needle bs

-- `std::string(buf)`: the bytes before the first 0.
pub c_string : List ℕ → List ℕ
c_string [] = []
c_string (b ∷ bs) = if b == 0 then [] else b ∷ c_string bs

-- The test on the response.
pub is_accepted : List ℕ → Bool
unfolding contains
is_accepted response =
    contains (ascii "HTTP/1.1 101") response && contains (ascii "Upgrade: websocket") response

is_accepted_lem :
    (response : List ℕ)
    → is_accepted response ≡ true
    → (contains (ascii "HTTP/1.1 101") response ≡ true)
      × (contains (ascii "Upgrade: websocket") response ≡ true)
unfolding is_accepted
is_accepted_lem response h = ground arith

is_accepted_back :
    (response : List ℕ)
    → contains (ascii "HTTP/1.1 101") response ≡ true
    → contains (ascii "Upgrade: websocket") response ≡ true
    → is_accepted response ≡ true
unfolding is_accepted
is_accepted_back response h k = rw (h, k) refl

module _ {W : Type 0} (t : Transport W) where
  -- `perform_handshake`: one send, whose result is not looked at, and one receive of at most 2047
  -- bytes.
  pub perform_handshake : W → List ℕ → List ℕ → List ℕ → List ℕ → List ℕ → Bool × W
  unfolding handshake_request is_accepted c_string
  perform_handshake w host websocket_key api_key path protocol =
      let (sent, w') = t.send w (handshake_request host websocket_key api_key path protocol) in
      let (bytes, w'') = t.recv w' 2047 in
      (elim bytes [ [] ↦ false | b ∷ bs ↦ is_accepted (c_string (b ∷ bs)) ], w'')

starts_with_found :
    (needle bs : List ℕ) → starts_with needle bs ≡ true → (after : List ℕ) × (bs ≡ needle ++ after)
unfolding starts_with
starts_with_found [] bs h = (bs, refl)
starts_with_found (n ∷ ns) [] h = absurd (ground arith)
starts_with_found (n ∷ ns) (b ∷ bs) h =
    let same : b ≡ n = ground arith in
    let rest : starts_with ns bs ≡ true = ground arith in
    let (after, e) = starts_with_found ns bs rest in (after, ap₂ ◌∷◌ same e)

pub starts_with-append : (needle after : List ℕ) → starts_with needle (needle ++ after) ≡ true
unfolding starts_with
starts_with-append [] after = refl
starts_with-append (n ∷ ns) after = ground (arith, starts_with-append ns after)

contains_found :
    (needle bs : List ℕ)
    → contains needle bs ≡ true
    → (before : List ℕ) × (after : List ℕ) × (bs ≡ before ++ (needle ++ after))
unfolding contains
contains_found needle [] h = let (after, e) = starts_with_found needle [] h in ([], after, e)
contains_found needle (b ∷ bs) h = elim (Bool-cases (starts_with needle (b ∷ bs))) [
  | inl here ↦ let (after, e) = starts_with_found needle (b ∷ bs) here in ([], after, e)
  | inr not_here ↦
      let later : contains needle bs ≡ true = ground arith in
      let (before, after, e) = contains_found needle bs later in
      (b ∷ before, after, ap (λ l. b ∷ l) e)
]

contains-append :
    (needle before after : List ℕ) → contains needle (before ++ (needle ++ after)) ≡ true
unfolding contains
contains-append [] [] [] = starts_with-append [] []
contains-append [] [] (b ∷ bs) = ground (arith, starts_with-append [] (b ∷ bs))
contains-append (n ∷ ns) [] after = ground (arith, starts_with-append (n ∷ ns) after)
contains-append needle (b ∷ before) after = ground (arith, contains-append needle before after)

-- A response is accepted exactly when the texts HTTP/1.1 101 and Upgrade: websocket stand
-- somewhere in it.
pub is_accepted_iff :
    (response : List ℕ)
    → (is_accepted response ≡ true) ↔ (
        ((before : List ℕ) × (after : List ℕ) × (response
            ≡ before ++ (ascii "HTTP/1.1 101" ++ after)))
        × ((before : List ℕ) × (after : List ℕ) × (response
              ≡ before ++ (ascii "Upgrade: websocket" ++ after))))
is_accepted_iff response = (
  λ h.
      let (one, two) = is_accepted_lem response h in
      (
        contains_found (ascii "HTTP/1.1 101") response one,
        contains_found (ascii "Upgrade: websocket") response two,
      ),
  λ ((b, a, e), (d, c, f)).
      is_accepted_back response (rw e (contains-append (ascii "HTTP/1.1 101") b a))
        (rw f (contains-append (ascii "Upgrade: websocket") d c)),
)
