-- ===== src/Kcp/Recv.antt =====
-- The receiving half of network/kcp/kcp.go: `PeekSize`, `Recv`, `parseData`.
pub mod Order
pub mod Members
pub mod Ready
pub mod Deliver
pub mod Message
use emt.Common.{
  ℕ, suc, ◌+◌, ◌%◌, Bool, true, false, not, ◌&&◌, ◌||◌, Option, none, some, List, [], ◌∷◌, ◌++◌,
  bit_or, length, take, drop, insert_at, ltb, leb, ◌==◌, if◌then◌else◌,
}
use emt.Word.{ℤ, pos, negsuc, ltb_ℤ, leb_ℤ, add32}
use emt.Kcp.State.{Segment, Kcp, ask_tell}
use emt.Kcp.Window.{itimediff}

-- Slices of the pool `_xmitBuf` hold this many bytes; a longer reslice panics.
abbrev pub mtu_limit : ℕ
mtu_limit = 1500

-- The loop of `PeekSize`: the bytes up to the first segment whose `Frg` is 0.
unfoldable pub message_size : List Segment → ℕ
message_size [] = 0
message_size (s ∷ ss) =
    let rest = message_size ss in if s.frg == 0 then length s.payload else length s.payload + rest

unfoldable pub peek_queue : List Segment → ℤ
unfolding message_size
peek_queue [] = negsuc 0
peek_queue (s ∷ ss) =
    if s.frg == 0
    then pos (length s.payload)
    else if ltb (length (s ∷ ss)) ((s.frg + 1) % 256)
    then negsuc 0
    else pos (message_size (s ∷ ss))

unfoldable pub peek_size : Kcp → ℤ
unfolding peek_queue
peek_size k = peek_queue k.rcv_queue

-- The first loop of `Recv`: the bytes that it copies out, and how many segments it took.
unfoldable pub take_message : List Segment → List ℕ × ℕ
take_message [] = ([], 0)
take_message (s ∷ ss) =
    let (bytes, count) = take_message ss in
    if s.frg == 0 then (s.payload, 1) else (s.payload ++ bytes, suc count)

-- The loop that `Recv` and `parseData` share: `RcvNxt` and `count` after it went over `RcvBuf`.
unfoldable pub count_ready : ℕ → ℕ → ℕ → ℕ → List Segment → ℕ × ℕ
count_ready wnd used nxt count [] = (nxt, count)
count_ready wnd used nxt count (s ∷ ss) =
    let rest = count_ready wnd used (add32 nxt 1) (count + 1) ss in
    if s.sn == nxt && ltb (used + count) wnd then rest else (nxt, count)

-- Moves what is next in order, and fits the window, from `RcvBuf` to `RcvQueue`.
unfoldable pub move_ready : Kcp → Kcp
unfolding count_ready
move_ready k =
    let (nxt, count) = count_ready k.rcv_wnd (length k.rcv_queue) k.rcv_nxt 0 k.rcv_buf in
    record k {
      rcv_nxt = nxt;
      rcv_queue = k.rcv_queue ++ take count k.rcv_buf;
      rcv_buf = drop count k.rcv_buf;
    }

-- `Recv` behind its guards: the result, the bytes written to the buffer, the new state.
unfoldable pub receive : Kcp → ℤ × List ℕ × Kcp
receive k =
    let fast_recover = leb k.rcv_wnd (length k.rcv_queue) in
    let (bytes, count) = take_message k.rcv_queue in
    let k' = move_ready (record k { rcv_queue = drop count k.rcv_queue }) in
    (
      pos (length bytes),
      bytes,
      record k' {
        probe =
            if ltb (length k'.rcv_queue) k'.rcv_wnd && fast_recover
            then bit_or k'.probe ask_tell
            else k'.probe;
      },
    )

-- `Recv` into a buffer of `size` bytes: -1 without a whole message, -2 if it does not fit.
unfoldable pub recv : ℕ → Kcp → ℤ × List ℕ × Kcp
recv size k =
    if ltb_ℤ (peek_size k) (pos 0)
    then (negsuc 0, [], k)
    else if ltb_ℤ (pos size) (peek_size k)
    then (negsuc 1, [], k)
    else receive k

-- Where the backward search of `parseData` ended.
pub data Slot : Type 0 where
  repeated : Slot
  after : ℕ → Slot

abbrev pub shift : Slot → Slot
shift repeated = repeated
shift (after i) = after (suc i)

-- The search from the last segment to the first: `none` if it ran off the front. The verdict of
-- the tail stands, so the last segment is looked at first.
unfoldable pub find_slot : ℕ → List Segment → Option Slot
find_slot sn [] = none
find_slot sn (s ∷ ss) = elim (find_slot sn ss) [
  | some p ↦ some (shift p)
  | none ↦
      if s.sn == sn
      then some repeated
      else if ltb_ℤ (pos 0) (itimediff sn s.sn)
      then some (after 1)
      else none
]

-- `insertIdx` and the insertion, with the flag `repeat`.
unfoldable pub insert_slot : Option Slot → Segment → List Segment → Bool × List Segment
insert_slot (some repeated) seg buf = (true, buf)
insert_slot (some (after i)) seg buf =
    (false, if i == length buf then buf ++ (seg ∷ []) else insert_at i seg buf)
insert_slot none seg buf =
    (false, if 0 == length buf then buf ++ (seg ∷ []) else insert_at 0 seg buf)

-- `parseData`: whether the segment was outside the window or a repetition, and the new state. A
-- payload longer than a pooled slice panics.
unfoldable pub parse_data : Segment → Kcp → Bool × Kcp
unfolding find_slot insert_slot move_ready
parse_data seg k =
    if leb_ℤ (pos 0) (itimediff seg.sn (add32 k.rcv_nxt k.rcv_wnd))
      || ltb_ℤ (itimediff seg.sn k.rcv_nxt) (pos 0)
    then (true, k)
    else let (repeat, buf) = insert_slot (find_slot seg.sn k.rcv_buf) seg k.rcv_buf in
      let over = not repeat && ltb mtu_limit (length seg.payload) in
      (repeat, move_ready (record k { rcv_buf = buf; panicked = k.panicked || over }))
