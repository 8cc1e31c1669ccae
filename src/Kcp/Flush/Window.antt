-- ===== src/Kcp/Flush/Window.antt =====
-- How `segs` of network/kcp/kcp.go numbers queued segments within the send window.
use native.Mathlib.Nat.{add-zero}
use emt.Common.{
  ℕ, suc, ◌+◌, ◌-◌, ◌^◌, ◌≤◌, ◌<◌, ◌≡◌, refl, ap, ◌∙◌, inl, inr, List, [], ◌∷◌, ◌++◌, take, drop,
  min, length, length-append, length-take, arith, leb, Bool-cases, max,
}
use emt.Word.{IsU32, sub32, add32, add32-IsU32, add32-zero, add32_add, add32-suc, pos, leb_ℤ}
use emt.Kcp.State.{Segment, Kcp, cmd_push}
use emt.Kcp.Window.{itimediff, zero-le}
use emt.Kcp.Recv.Ready.{IsConsecutive}
use emt.Kcp.Ack.Flight.{IsSending}
use emt.Kcp.Flush.{take_new, send_window, fill_window}

-- A queued segment as it enters the window.
abbrev pub numbered : ℕ → ℕ → Segment → Segment
numbered conv sn s = record s { conv = conv; cmd = cmd_push; sn = sn }

abbrev pub number_all : ℕ → ℕ → List Segment → List Segment
number_all conv nxt [] = []
number_all conv nxt (s ∷ ss) = numbered conv nxt s ∷ number_all conv (add32 nxt 1) ss

room_test :
    (una i w : ℕ)
    → IsU32 una
    → i < 2 ^ 31
    → w < 2 ^ 31
    → leb_ℤ (pos 0) (itimediff (add32 una i) (add32 una w)) ≡ leb w i
room_test una i w hu hi hw =
    rw (zero-le (add32 una i) (add32 una w)) (unfold sub32 add32 in ground arith)

-- The loop takes what fits between the distance `i` of the next number and the window.
take_new-room :
    (conv una w i : ℕ) (queue : List Segment)
    → IsU32 una
    → i + length queue < 2 ^ 31
    → w < 2 ^ 31
    → let n = min (w - i) (length queue) in
      take_new conv (add32 una w) (add32 una i) queue
      ≡ (add32 una (i + n), number_all conv (add32 una i) (take n queue))
unfolding take_new
take_new-room conv una w i [] hu hq hw = let z : min (w - i) 0 ≡ 0 = omega arith in rw (z, add-zero)
take_new-room conv una w i (s ∷ ss) hu hq hw = elim (Bool-cases (leb w i)) [
  | inl full ↦
      let z : min (w - i) (suc (length ss)) ≡ 0 = ground arith in
      rw (room_test una i w hu (omega arith) hw, full, z, add-zero)
  | inr room ↦
      let ih = take_new-room conv una w (i + 1) ss hu (omega arith) hw in
      let n = min (w - (i + 1)) (length ss) in
      let z : min (w - i) (suc (length ss)) ≡ suc n = ground arith in
      let grow : i + 1 + n ≡ i + suc n = omega arith in
      rw (
        room_test una i w hu (omega arith) hw,
        room,
        add32_add una i 1,
        ih,
        z,
        grow,
        add32_add una i 1,
      )
]

pub length-number_all :
    (conv nxt : ℕ) (ss : List Segment) → length (number_all conv nxt ss) ≡ length ss
length-number_all conv nxt [] = refl
length-number_all conv nxt (s ∷ ss) = ap suc (length-number_all conv (add32 nxt 1) ss)

number_all-IsConsecutive :
    (conv nxt : ℕ) (ss : List Segment) → IsConsecutive nxt (number_all conv nxt ss)
number_all-IsConsecutive conv nxt [] = tt
number_all-IsConsecutive conv nxt (s ∷ ss) = (refl, number_all-IsConsecutive conv (add32 nxt 1) ss)

pub IsConsecutive-append :
    (base : ℕ) (xs ys : List Segment)
    → IsU32 base
    → IsConsecutive base xs
    → IsConsecutive (add32 base (length xs)) ys
    → IsConsecutive base (xs ++ ys)
IsConsecutive-append base [] ys hb c d = rw (add32-zero base hb) at d
IsConsecutive-append base (x ∷ xs) ys hb (e, c) d =
    (e, IsConsecutive-append (add32 base 1) xs ys (add32-IsU32 base 1) c (rw add32-suc d))

-- How many queued segments enter the window.
abbrev pub admitted : Kcp → ℕ
admitted k = min (send_window k - length k.snd_buf) (length k.snd_queue)

-- The state with that many segments moved over and numbered from `SndNxt` on.
abbrev pub filled : Kcp → Kcp
filled k = record k {
  snd_nxt = add32 k.snd_una (length k.snd_buf + admitted k);
  snd_buf = k.snd_buf ++ number_all k.conv k.snd_nxt (take (admitted k) k.snd_queue);
  snd_queue = drop (admitted k) k.snd_queue;
}

module _ (k : Kcp) (v : IsSending k) (few : length k.snd_buf + length k.snd_queue < 2 ^ 31)
    (small : send_window k < 2 ^ 31) where
  length_taken : length (take (admitted k) k.snd_queue) ≡ admitted k
  length_taken = omega (arith, length-take {0} (admitted k) k.snd_queue)

  -- With the numbers in flight in their places, and fewer than 2 ^ 31 segments and a window below
  -- 2 ^ 31: the loop of `segs` takes as many segments from the front of the queue as the send window has
  -- room for beside those in flight, and numbers them from `SndNxt` on.
  pub fill_window_lem : fill_window k ≡ (admitted k, filled k)
  unfolding fill_window send_window
  fill_window_lem = rw (
    v.nxt,
    take_new-room k.conv k.snd_una (send_window k) (length k.snd_buf) k.snd_queue v.una few small,
    length-number_all,
    length_taken,
  )

  -- Under the same conditions the numbers in flight are again those from `SndUna` to `SndNxt`, and there are no more of
  -- them than the window allows, or than there were.
  pub fill_window-IsSending :
      IsSending (fill_window k).1
      × (length (fill_window k).1.snd_buf ≤ max (send_window k) (length k.snd_buf))
  fill_window-IsSending =
      let new = number_all k.conv k.snd_nxt (take (admitted k) k.snd_queue) in
      let len : length (k.snd_buf ++ new) ≡ length k.snd_buf + admitted k =
        length-append k.snd_buf new
        ∙ ap (λ n. length k.snd_buf + n) (length-number_all k.conv k.snd_nxt _ ∙ length_taken) in
      rw fill_window_lem (
        record {
          una = v.una;
          numbers =
              IsConsecutive-append k.snd_una k.snd_buf new v.una v.numbers
                (rw (← v.nxt) (number_all-IsConsecutive k.conv k.snd_nxt _));
          nxt = rw len;
          few = omega (arith, len);
        },
        omega (arith, len),
      )
