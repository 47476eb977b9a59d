-- ===== src/Prelude/Int.antt =====
-- The signed integers of the program, as ℤ over the native numbers: `int64_t`, `__int128` and
-- `int` values, the truncating division of C++, its casts, and the tests. Sums and orders go
-- through the two parts of an integer, which are numbers that `omega` reads.
use hft_system.Prelude.Tests.{ltb, leb, ◌==◌, if◌then◌else◌}
use Prim.Native.Nat.{ℕ, suc, ◌+◌, ◌-◌, ◌*◌, ◌/◌, ◌%◌, ◌^◌, ◌≤◌, ◌<◌}
use mathlib.Core.Path.{◌≡◌, refl}
use mathlib.Core.Bool.{Bool}
use mathlib.Core.Logic.{◌⊎◌, inl, inr}
use native.Mathlib.Decide.{dec_lt}
use native.Mathlib.Omega.{arith}

-- `negsuc n` is -(n + 1).
pub data ℤ : Type 0 where
  pos : ℕ → ℤ
  negsuc : ℕ → ℤ

abbrev pub pos_part : ℤ → ℕ
pos_part (pos n) = n
pos_part (negsuc n) = 0

abbrev pub neg_part : ℤ → ℕ
neg_part (pos n) = 0
neg_part (negsuc n) = suc n

-- a - b, as an integer.
abbrev pub sub_ℕ : ℕ → ℕ → ℤ
sub_ℕ a b = if leb b a then pos (a - b) else negsuc (b - a - 1)

infixl 65 ◌+ℤ◌ ◌-ℤ◌
infixl 70 ◌*ℤ◌
infix 50 ◌≤ℤ◌ ◌<ℤ◌
unfoldable pub ◌+ℤ◌ : ℤ → ℤ → ℤ
a +ℤ b = sub_ℕ (pos_part a + pos_part b) (neg_part a + neg_part b)

unfoldable pub ◌-ℤ◌ : ℤ → ℤ → ℤ
a -ℤ b = sub_ℕ (pos_part a + neg_part b) (neg_part a + pos_part b)

unfoldable pub ◌*ℤ◌ : ℤ → ℤ → ℤ
a *ℤ b =
    sub_ℕ (pos_part a * pos_part b + neg_part a * neg_part b)
      (pos_part a * neg_part b + neg_part a * pos_part b)

abbrev pub ◌≤ℤ◌ : ℤ → ℤ → Type 0
a ≤ℤ b = pos_part a + neg_part b ≤ pos_part b + neg_part a

abbrev pub ◌<ℤ◌ : ℤ → ℤ → Type 0
a <ℤ b = pos_part a + neg_part b < pos_part b + neg_part a

abbrev pub ltb_ℤ : ℤ → ℤ → Bool
ltb_ℤ a b = ltb (pos_part a + neg_part b) (pos_part b + neg_part a)

abbrev pub leb_ℤ : ℤ → ℤ → Bool
leb_ℤ a b = leb (pos_part a + neg_part b) (pos_part b + neg_part a)

abbrev pub eqb_ℤ : ℤ → ℤ → Bool
eqb_ℤ a b = pos_part a + neg_part b == pos_part b + neg_part a

-- `std::abs`, as a number.
abbrev pub abs : ℤ → ℕ
abs a = pos_part a + neg_part a

-- `/` and `%` of C++ by a positive divisor: the quotient is rounded towards 0.
unfoldable pub tdiv : ℤ → ℕ → ℤ
tdiv a d = sub_ℕ (pos_part a / d) (neg_part a / d)

unfoldable pub tmod : ℤ → ℕ → ℤ
tmod a d = sub_ℕ (pos_part a % d) (neg_part a % d)

-- The bit pattern of `a` in an integer type of `m` values.
unfoldable pub wrap : ℤ → ℕ → ℕ
wrap a m = (pos_part a % m + (m - neg_part a % m)) % m

-- `static_cast<int>` and `static_cast<int32_t>`: the pattern modulo 2 ^ 32, read as signed.
unfoldable pub to_int32 : ℤ → ℤ
to_int32 a = let w = wrap a (2 ^ 32) in if ltb w (2 ^ 31) then pos w else sub_ℕ w (2 ^ 32)

-- `static_cast<int64_t>`, in the same way.
unfoldable pub to_int64 : ℤ → ℤ
to_int64 a = let w = wrap a (2 ^ 64) in if ltb w (2 ^ 63) then pos w else sub_ℕ w (2 ^ 64)

-- `std::clamp`
unfoldable pub clamp : ℤ → ℤ → ℤ → ℤ
clamp a lo hi = if ltb_ℤ a lo then lo else if ltb_ℤ hi a then hi else a

-- One lemma for each operation lets `omega` work with the operations shut, at any depth.
pub +ℤ_parts :
    (a b : ℤ)
    → pos_part (a +ℤ b) + neg_part a + neg_part b ≡ neg_part (a +ℤ b) + pos_part a + pos_part b
unfolding ◌+ℤ◌
+ℤ_parts a b = ground arith

pub -ℤ_parts :
    (a b : ℤ)
    → pos_part (a -ℤ b) + neg_part a + pos_part b ≡ neg_part (a -ℤ b) + pos_part a + neg_part b
unfolding ◌-ℤ◌
-ℤ_parts a b = ground arith

-- One of the two parts is 0.
pub parts_split : (a : ℤ) → (pos_part a ≡ 0) ⊎ (neg_part a ≡ 0)
parts_split (pos n) = inr refl
parts_split (negsuc n) = inl refl

pub eq_of_parts : (a b : ℤ) → pos_part a + neg_part b ≡ pos_part b + neg_part a → a ≡ b
eq_of_parts a b h = ground arith

pub ruleset int_laws = (arith, +ℤ_parts, -ℤ_parts, parts_split, eq_of_parts)

pub ≤ℤ_cases : (a b : ℤ) → (a ≤ℤ b) ⊎ (b ≤ℤ a)
≤ℤ_cases a b = omega arith

pub ℤ_cases : (a b : ℤ) → (a <ℤ b) ⊎ ((a ≡ b) ⊎ (b <ℤ a))
ℤ_cases a b = ground arith

pub dec_lt_ℤ : (a b : ℤ) → Dec (a <ℤ b)
dec_lt_ℤ a b = dec_lt (pos_part a + neg_part b) (pos_part b + neg_part a)

-- `/` of C++ by any divisor but 0.
unfoldable pub quot_trunc : ℤ → ℤ → ℤ
unfolding tdiv ◌-ℤ◌
quot_trunc a (pos n) = tdiv a n
quot_trunc a (negsuc n) = pos 0 -ℤ tdiv a (suc n)
