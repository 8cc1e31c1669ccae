-- ===== src/Word.antt =====
-- Go's fixed-width integers. A uint32 is a number below `2 ^ 32` and wraps by `%`; an int32 is the
-- integer that its bit pattern stands for.
use emt.Common.{
  ℕ, suc, ◌+◌, ◌-◌, ◌*◌, ◌/◌, ◌%◌, ◌^◌, ◌<◌, ◌≡◌, Bool, arith, ltb, leb, ◌==◌, if◌then◌else◌,
}

-- `negsuc n` is -(n + 1).
pub data ℤ : Type 0 where
  pos : ℕ → ℤ
  negsuc : ℕ → ℤ

abbrev pub pos_part : ℤ → ℕ
pos_part (pos n) = n
pos_part (negsuc n) = 0

abbrev pub neg_part : ℤ → ℕ
neg_part (pos n) = 0
neg_part (negsuc n) = suc n

abbrev pub ltb_ℤ : ℤ → ℤ → Bool
ltb_ℤ a b = ltb (pos_part a + neg_part b) (pos_part b + neg_part a)

abbrev pub leb_ℤ : ℤ → ℤ → Bool
leb_ℤ a b = leb (pos_part a + neg_part b) (pos_part b + neg_part a)

abbrev pub eqb_ℤ : ℤ → ℤ → Bool
eqb_ℤ a b = (pos_part a + neg_part b) == (pos_part b + neg_part a)

abbrev pub u32_mod : ℕ
u32_mod = 2 ^ 32

abbrev pub u64_mod : ℕ
u64_mod = 2 ^ 64

abbrev pub IsU32 : ℕ → Type 0
IsU32 n = n < 2 ^ 32

abbrev pub IsByte : ℕ → Type 0
IsByte n = n < 256

-- uint32 arithmetic.
unfoldable pub add32 : ℕ → ℕ → ℕ
add32 a b = (a + b) % u32_mod

unfoldable pub sub32 : ℕ → ℕ → ℕ
sub32 a b = (a + u32_mod - b) % u32_mod

unfoldable pub mul32 : ℕ → ℕ → ℕ
mul32 a b = a * b % u32_mod

-- uint32(z) and int32(w): the same bits.
unfoldable pub to_u32 : ℤ → ℕ
to_u32 (pos n) = n % u32_mod
to_u32 (negsuc n) = u32_mod - 1 - n % u32_mod

unfoldable pub to_i32 : ℕ → ℤ
to_i32 w = if ltb w (2 ^ 31) then pos w else negsuc (u32_mod - 1 - w)

-- int32 addition and subtraction, which wrap.
unfoldable pub add_i32 : ℤ → ℤ → ℤ
add_i32 a b = to_i32 (add32 (to_u32 a) (to_u32 b))

unfoldable pub sub_i32 : ℤ → ℤ → ℤ
sub_i32 a b = to_i32 (sub32 (to_u32 a) (to_u32 b))

-- `z >> k` on an int32: rounds down, the sign stays.
unfoldable pub sar : ℤ → ℕ → ℤ
sar (pos n) k = pos (n / 2 ^ k)
sar (negsuc n) k = negsuc (n / 2 ^ k)

pub add32-IsU32 : (a b : ℕ) → IsU32 (add32 a b)
unfolding add32
add32-IsU32 a b = omega arith

pub sub32-IsU32 : (a b : ℕ) → IsU32 (sub32 a b)
unfolding sub32
sub32-IsU32 a b = omega arith

pub to_i32-to_u32 : (w : ℕ) → IsU32 w → to_u32 (to_i32 w) ≡ w
unfolding to_i32 to_u32
to_i32-to_u32 w h = ground arith

pub add32-sub32 : (a b : ℕ) → IsU32 a → IsU32 b → add32 b (sub32 a b) ≡ a
unfolding add32 sub32
add32-sub32 a b ha hb = omega arith

pub add32_add : (a b c : ℕ) → add32 (add32 a b) c ≡ add32 a (b + c)
unfolding add32
add32_add a b c = omega arith

pub add32-zero : (n : ℕ) → IsU32 n → add32 n 0 ≡ n
unfolding add32
add32-zero n h = omega arith

pub add32-suc : (n m : ℕ) → add32 (add32 n 1) m ≡ add32 n (suc m)
unfolding add32
add32-suc n m = omega arith

-- The difference of two numbers.
abbrev pub sub_ℕ : ℕ → ℕ → ℤ
sub_ℕ a b = if leb b a then pos (a - b) else negsuc (b - a - 1)
