-- ===== src/Kcp/Recv/Ready.antt =====
-- The loop of `Recv` and `parseData` in network/kcp/kcp.go that moves segments to the queue.
use emt.Common.{
  ℕ, suc, ◌+◌, ◌^◌, ◌≤◌, ◌<◌, ◌≡◌, refl, sym, ap, ap₂, ◌∙◌, ◌≢◌, ◌⊎◌, inl, inr, ◌&&◌, List, [], ◌∷◌,
  ◌++◌, length, take, drop, arith, ltb, ◌==◌, Bool-cases, take-append-drop,
}
use native.Mathlib.Nat.{add-zero, zero-add}
use emt.Word.{IsU32, sub32, add32, add32-IsU32, add32-zero, add32-suc}
use emt.Kcp.State.{Segment, Kcp}
use emt.Kcp.Recv.{count_ready, move_ready}
use emt.Kcp.Recv.Order.{off, IsOrdered, IsOrdered-weaken}

-- Each segment has the number that follows the one before it.
abbrev pub IsConsecutive : ℕ → List Segment → Type 0
IsConsecutive nxt [] = Unit {0}
IsConsecutive nxt (s ∷ ss) = (s.sn ≡ nxt) × IsConsecutive (add32 nxt 1) ss

-- Nothing can be moved: the queue is full, or the next number has not come.
abbrev pub IsWaiting : ℕ → ℕ → ℕ → List Segment → Type 0
IsWaiting wnd used nxt [] = Unit {0}
IsWaiting wnd used nxt (s ∷ ss) = (s.sn ≢ nxt) ⊎ (wnd ≤ used)

off-next :
    (base n : ℕ)
    → IsU32 base
    → IsU32 n
    → 0 < sub32 n base
    → suc (sub32 n (add32 base 1)) ≡ sub32 n base
unfolding sub32 add32
off-next base n hb hn h = omega arith

-- Counted from the next number all distances are one less.
rebase :
    (base wnd lo : ℕ) (ss : List Segment)
    → IsU32 base
    → IsOrdered base wnd (suc lo) ss
    → IsOrdered (add32 base 1) wnd lo ss
rebase base wnd lo [] hb o = tt
rebase base wnd lo (s ∷ ss) hb (u, l, d, o) =
    let e = off-next base s.sn hb u (omega arith) in
    (u, omega (arith, e), omega (arith, e), rw e (rebase base wnd (off base s) ss hb o))

-- What the loop moves, from a buffer in order.
pub record Moved (wnd used nxt count : ℕ) (ss : List Segment) (m : ℕ) : Type 0 where
  pub result : count_ready wnd used nxt count ss ≡ (add32 nxt m, count + m)
  pub taken : length (take m ss) ≡ m
  pub numbers : IsConsecutive nxt (take m ss)
  pub rest : IsOrdered (add32 nxt m) wnd 0 (drop m ss)
  pub room : (m ≡ 0) ⊎ (used + (count + m) ≤ wnd)
  pub waiting : IsWaiting wnd (used + (count + m)) (add32 nxt m) (drop m ss)

Moved-none :
    (wnd used nxt count : ℕ) (ss : List Segment)
    → IsU32 nxt
    → count_ready wnd used nxt count ss ≡ (nxt, count)
    → IsOrdered nxt wnd 0 ss
    → IsWaiting wnd (used + count) nxt ss
    → Moved wnd used nxt count ss 0
Moved-none wnd used nxt count ss hn e o w = record {
  result = rw (add32-zero nxt hn) (e ∙ ap (λ c. (nxt, c)) (omega arith));
  taken = refl;
  numbers = tt;
  rest = rw (add32-zero nxt hn) o;
  room = inl refl;
  waiting = rw (add32-zero nxt hn, add-zero) w;
}

Moved-suc :
    (wnd used nxt count m : ℕ) (s : Segment) (ss : List Segment)
    → s.sn ≡ nxt
    → used + count < wnd
    → count_ready wnd used nxt count (s ∷ ss) ≡ count_ready wnd used (add32 nxt 1) (count + 1) ss
    → Moved wnd used (add32 nxt 1) (count + 1) ss m
    → Moved wnd used nxt count (s ∷ ss) (suc m)
Moved-suc wnd used nxt count m s ss e lt step r =
    let grow : count + 1 + m ≡ count + suc m = omega arith in
    record {
      result = step ∙ r.result ∙ ap₂ (λ n c. (n, c)) (add32-suc nxt m) grow;
      taken = ap suc r.taken;
      numbers = (e, r.numbers);
      rest = rw (← add32-suc nxt m) r.rest;
      room = elim r.room [ inl z ↦ inr (omega arith) | inr h ↦ inr (omega arith) ];
      waiting = rw (← add32-suc nxt m, ← grow) r.waiting;
    }

pub count_ready-Moved :
    (wnd used nxt count : ℕ) (ss : List Segment)
    → IsU32 nxt
    → IsOrdered nxt wnd 0 ss
    → (m : ℕ) × Moved wnd used nxt count ss m
unfolding count_ready
count_ready-Moved wnd used nxt count [] hn o = (0, Moved-none wnd used nxt count [] hn refl o tt)
count_ready-Moved wnd used nxt count (s ∷ ss) hn (u, l, d, o) =
    let later =
      rebase nxt wnd 0 ss hn (IsOrdered-weaken nxt wnd 1 (suc (off nxt s)) ss (omega arith) o) in
    let (m, r) =
      count_ready-Moved wnd used (add32 nxt 1) (count + 1) ss (add32-IsU32 nxt 1) later in
    elim (Bool-cases (s.sn == nxt && ltb (used + count) wnd)) [
      | inl go ↦
          (suc m, Moved-suc wnd used nxt count m s ss (ground arith) (ground arith) (rw go) r)
      | inr no_more ↦
          (0, Moved-none wnd used nxt count (s ∷ ss) hn (rw no_more) (u, l, d, o) (ground arith))
    ]

-- The receiver keeps its place: the next number is a uint32, the window is less than half of the
-- range, and the buffer holds numbers of the window, in order and once each.
pub record IsReceiving (k : Kcp) : Type 0 where
  pub nxt : IsU32 k.rcv_nxt
  pub wnd : k.rcv_wnd < 2 ^ 31
  pub buf : IsOrdered k.rcv_nxt k.rcv_wnd 0 k.rcv_buf

-- What a move from `RcvBuf` to `RcvQueue` does: the segments moved are the front of the buffer and
-- carry the next numbers, and it goes on as far as it can.
pub record Delivers (k k' : Kcp) (moved : List Segment) : Type 0 where
  pub queue : k'.rcv_queue ≡ k.rcv_queue ++ moved
  pub buf : moved ++ k'.rcv_buf ≡ k.rcv_buf
  pub numbers : IsConsecutive k.rcv_nxt moved
  pub nxt : k'.rcv_nxt ≡ add32 k.rcv_nxt (length moved)
  pub room : (length moved ≡ 0) ⊎ (length k.rcv_queue + length moved ≤ k.rcv_wnd)
  pub waiting : IsWaiting k.rcv_wnd (length k.rcv_queue + length moved) k'.rcv_nxt k'.rcv_buf

abbrev moved_by : Kcp → ℕ → Kcp
moved_by k m = record k {
  rcv_nxt = add32 k.rcv_nxt m;
  rcv_queue = k.rcv_queue ++ take m k.rcv_buf;
  rcv_buf = drop m k.rcv_buf;
}

move_ready-moved_by :
    (k : Kcp) (m : ℕ)
    → count_ready k.rcv_wnd (length k.rcv_queue) k.rcv_nxt 0 k.rcv_buf ≡ (add32 k.rcv_nxt m, 0 + m)
    → move_ready k ≡ moved_by k m
unfolding move_ready
move_ready-moved_by k m e = rw (e, zero-add)

moved_by-Delivers :
    (k : Kcp) (m : ℕ)
    → Moved k.rcv_wnd (length k.rcv_queue) k.rcv_nxt 0 k.rcv_buf m
    → Delivers k (moved_by k m) (take m k.rcv_buf)
moved_by-Delivers k m r = record {
  queue = refl;
  buf = take-append-drop m k.rcv_buf;
  numbers = r.numbers;
  nxt = ap (add32 k.rcv_nxt) (sym r.taken);
  room = rw r.taken (rw zero-add at r.room);
  waiting = rw r.taken (rw zero-add at r.waiting);
}

pub move_ready_lem :
    (k : Kcp)
    → IsReceiving k
    → IsReceiving (move_ready k) × (moved : List Segment) × Delivers k (move_ready k) moved
move_ready_lem k v =
    let (m, r) =
      count_ready-Moved k.rcv_wnd (length k.rcv_queue) k.rcv_nxt 0 k.rcv_buf v.nxt v.buf in
    rw (move_ready-moved_by k m r.result) (
      record { nxt = add32-IsU32 k.rcv_nxt m; wnd = v.wnd; buf = r.rest },
      take m k.rcv_buf,
      moved_by-Delivers k m r,
    )
