-- ===== src/Kcp/Recv/Deliver.antt =====
-- What `parseData` of network/kcp/kcp.go does with a segment, by its place in the window.
use emt.Common.{
  ℕ, ◌^◌, ◌≤◌, ◌<◌, ◌≡◌, refl, inl, inr, Bool, true, false, not, ◌&&◌, ◌||◌, List, length, arith,
  ltb, leb, Bool-cases,
}
use emt.Word.{IsU32, sub32, add32, pos, ltb_ℤ, leb_ℤ}
use emt.Kcp.State.{Segment, Kcp}
use emt.Kcp.Window.{itimediff, lt-zero, zero-le}
use emt.Kcp.Recv.{mtu_limit, move_ready, parse_data}
use emt.Kcp.Recv.Order.{off, contains, place, insert_slot-place, place-IsOrdered}
use emt.Kcp.Recv.Ready.{IsReceiving, Delivers, move_ready_lem}

outside_test :
    (sn nxt wnd : ℕ)
    → IsU32 sn
    → IsU32 nxt
    → wnd < 2 ^ 31
    → (leb_ℤ (pos 0) (itimediff sn (add32 nxt wnd)) || ltb_ℤ (itimediff sn nxt) (pos 0))
      ≡ leb wnd (sub32 sn nxt)
outside_test sn nxt wnd hs hn hw =
    rw (zero-le sn (add32 nxt wnd), lt-zero sn nxt) (unfold add32 sub32 in ground arith)

-- The buffer with the segment put in its place.
abbrev pub placed : Segment → Kcp → Kcp
placed seg k = record k { rcv_buf = place k.rcv_nxt seg k.rcv_buf }

module _ (k : Kcp) (seg : Segment) (v : IsReceiving k) (hs : IsU32 seg.sn) where
  -- With the receive buffer in order: a segment outside the window of `RcvWnd` numbers from `RcvNxt` on is reported as a repetition,
  -- and changes nothing.
  pub parse_data_outside : k.rcv_wnd ≤ off k.rcv_nxt seg → parse_data seg k ≡ (true, k)
  unfolding parse_data
  parse_data_outside h = rw (outside_test seg.sn k.rcv_nxt k.rcv_wnd hs v.nxt v.wnd) (ground arith)

  inside : Bool → Kcp
  inside over = record k { rcv_buf = place k.rcv_nxt seg k.rcv_buf; panicked = over }

  inside-IsReceiving : (over : Bool) → off k.rcv_nxt seg < k.rcv_wnd → IsReceiving (inside over)
  unfolding inside
  inside-IsReceiving over h = record {
    nxt = v.nxt;
    wnd = v.wnd;
    buf = place-IsOrdered k.rcv_nxt k.rcv_wnd 0 seg k.rcv_buf v.nxt hs (omega arith) h v.buf;
  }

  -- The state that `parse_data` moves from, for a segment in the window.
  parse_data_accepted :
      off k.rcv_nxt seg < k.rcv_wnd
      → (over : Bool) × (parse_data seg k ≡ (contains seg.sn k.rcv_buf, move_ready (inside over)))
  unfolding parse_data inside
  parse_data_accepted h = (
    k.panicked || (not (contains seg.sn k.rcv_buf) && ltb mtu_limit (length seg.payload)),
    rw (
      outside_test seg.sn k.rcv_nxt k.rcv_wnd hs v.nxt v.wnd,
      leb-false k.rcv_wnd _ h,
      insert_slot-place k.rcv_nxt k.rcv_wnd 0 seg k.rcv_buf v.nxt (omega arith) hs h v.buf,
    ),
  )
    where
      leb-false : (a b : ℕ) → b < a → leb a b ≡ false
      leb-false a b p = ground arith

module _ (k : Kcp) (seg : Segment) (v : IsReceiving k) (hs : IsU32 seg.sn) where
  -- With the receive buffer in order: a segment in the window is put in its place in the buffer, unless its number is there already,
  -- which is reported. Then the run of next numbers at the front goes to the queue, as far as the
  -- window has room, and `RcvNxt` moves behind it.
  pub parse_data_in_window :
      off k.rcv_nxt seg < k.rcv_wnd
      → ((parse_data seg k).0 ≡ contains seg.sn k.rcv_buf)
        × (moved : List Segment) × Delivers (placed seg k) (parse_data seg k).1 moved
  parse_data_in_window h =
      let (over, e) = parse_data_accepted k seg v hs h in
      let (_, moved, d) =
        move_ready_lem (inside k seg v hs over) (inside-IsReceiving k seg v hs over h) in
      rw e (
        refl,
        moved,
        unfold inside in
            record {
              queue = d.queue;
              buf = d.buf;
              numbers = d.numbers;
              nxt = d.nxt;
              room = d.room;
              waiting = d.waiting;
            },
      )

  -- `parseData` keeps the receive buffer in order and inside the window, for every segment with a
  -- 32-bit number.
  pub parse_data-IsReceiving : IsReceiving (parse_data seg k).1
  parse_data-IsReceiving = elim (Bool-cases (ltb (off k.rcv_nxt seg) k.rcv_wnd)) [
    | inl h ↦
        let lt : off k.rcv_nxt seg < k.rcv_wnd = ground arith in
        let (over, e) = parse_data_accepted k seg v hs lt in
        rw e (move_ready_lem (inside k seg v hs over) (inside-IsReceiving k seg v hs over lt)).0
    | inr h ↦ rw (parse_data_outside k seg v hs (ground arith)) v
  ]
