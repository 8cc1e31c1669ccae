-- ===== src/Kcp/Window.antt =====
-- `_itimediff` and the other word helpers of network/kcp/kcp.go. Sequence numbers and times wrap
-- at 2 ^ 32, and are compared by the sign of their difference.
use emt.Common.{ℕ, ◌^◌, ◌≤◌, ◌<◌, ◌≡◌, ◌↔◌, true, ◌&&◌, arith, ltb, leb, if◌then◌else◌}
use emt.Word.{ℤ, pos, ltb_ℤ, leb_ℤ, IsU32, sub32, to_i32}

unfoldable pub imin : ℕ → ℕ → ℕ
imin a b = if leb a b then a else b

unfoldable pub imax : ℕ → ℕ → ℕ
imax a b = if leb b a then a else b

unfoldable pub ibound : ℕ → ℕ → ℕ → ℕ
unfolding imin imax
ibound lower middle upper = imin (imax lower middle) upper

unfoldable pub itimediff : ℕ → ℕ → ℤ
itimediff later earlier = to_i32 (sub32 later earlier)

-- The three tests of a difference against 0 that kcp.go makes, as tests of the wrapped distance.
pub lt-zero : (a b : ℕ) → ltb_ℤ (itimediff a b) (pos 0) ≡ leb (2 ^ 31) (sub32 a b)
unfolding itimediff to_i32
lt-zero a b = ground arith

pub zero-le : (a b : ℕ) → leb_ℤ (pos 0) (itimediff a b) ≡ ltb (sub32 a b) (2 ^ 31)
unfolding itimediff to_i32
zero-le a b = ground arith

pub zero-lt :
    (a b : ℕ) → ltb_ℤ (pos 0) (itimediff a b) ≡ (ltb 0 (sub32 a b) && ltb (sub32 a b) (2 ^ 31))
unfolding itimediff to_i32
zero-lt a b = ground arith

-- Within half the range of a base, the sign of a difference orders by distance from that base.
pub itimediff-order :
    (base x y : ℕ)
    → IsU32 base
    → IsU32 x
    → IsU32 y
    → sub32 x base < 2 ^ 31
    → sub32 y base < 2 ^ 31
    → (ltb_ℤ (pos 0) (itimediff x y) ≡ true) ↔ (sub32 y base < sub32 x base)
unfolding itimediff to_i32 sub32
itimediff-order base x y hb hx hy dx dy = ground arith

-- The bounds win over the middle value, the upper one last.
pub ibound_bounds : (lo x hi : ℕ) → lo ≤ hi → (lo ≤ ibound lo x hi) × (ibound lo x hi ≤ hi)
unfolding ibound
ibound_bounds lo x hi h = ground arith
