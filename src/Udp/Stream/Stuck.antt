-- ===== src/Udp/Stream/Stuck.antt =====
-- An empty message in the queue of network/kcp/kcp.go, and `Read` of network/kcp/udp.go behind it.
use emt.Common.{
  ℕ, zero, suc, ◌+◌, ◌<◌, ◌≡◌, refl, sym, ap, ◌∙◌, Bool, true, false, ◌||◌, if◌then◌else◌, List, [],
  ◌∷◌, ◌++◌, append-nil, length, take, arith, ltb, leb, ◌==◌,
}
use emt.Word.{pos, add32, leb_ℤ, ltb_ℤ}
use emt.Kcp.Window.{itimediff}
use emt.Kcp.Send.Fragments.{drop-all}
use emt.Kcp.State.{Segment, Kcp, blank}
use emt.Kcp.Recv.{peek_size, peek_queue, parse_data, move_ready}
use emt.Kcp.Send.{extend_last, fragments, send, send_start, send_rest, is_stream, segment_count}
use emt.Udp.Session.{Session}
use emt.Udp.Stream.{waits, read_peeked, read_round, read}
use emt.Udp.Stream.Run.{Event, asks, arrives, step, run}

-- The first message in the queue has no bytes, and nothing is left of an earlier one.
pub record IsStuck (s : Session) : Type 0 where
  pub head : Segment
  pub rest : List Segment
  pub queue : s.kcp.rcv_queue ≡ head ∷ rest
  pub end : head.frg ≡ 0
  pub empty : head.payload ≡ []
  pub read_all : s.bufptr ≡ []

-- The queue of the second connection is that of the first and more.
abbrev pub Grows : Kcp → Kcp → Type 0
Grows k k' = (moved : List Segment) × (k'.rcv_queue ≡ k.rcv_queue ++ moved)

either-Grows :
    (b : Bool) (k : Kcp) (r : Bool × Kcp) → Grows k r.1 → Grows k (if b then (true, k) else r).1
either-Grows true k r g = ([], sym (append-nil _))
either-Grows false k r g = g

-- `parseData` only adds to the queue.
parse_data-Grows : (seg : Segment) (k : Kcp) → Grows k (parse_data seg k).1
unfolding parse_data move_ready
parse_data-Grows seg k =
    either-Grows
      (leb_ℤ (pos 0) (itimediff seg.sn (add32 k.rcv_nxt k.rcv_wnd))
        || ltb_ℤ (itimediff seg.sn k.rcv_nxt) (pos 0))
      k _ (_, refl)

peek_stuck : (s : Session) → IsStuck s → peek_size s.kcp ≡ pos 0
unfolding peek_size peek_queue
peek_stuck s st = rw (st.queue, st.end, st.empty) refl

read_stuck : (size : ℕ) (s : Session) → IsStuck s → read size s ≡ (waits, s)
unfolding read read_round
read_stuck size s st = rw (st.read_all, peek_stuck s st) (unfold read_peeked in refl)

step-IsStuck : (e : Event) (s : Session) → IsStuck s → ((step e s).0 ≡ []) × IsStuck (step e s).1
unfolding step
step-IsStuck (asks size) s st = rw (read_stuck size s st) (refl, st)
step-IsStuck (arrives seg) s st =
    let (moved, e) = parse_data-Grows seg s.kcp in
    (
      refl,
      record {
        head = st.head;
        rest = st.rest ++ moved;
        queue = e ∙ ap (λ q. q ++ moved) st.queue;
        end = st.end;
        empty = st.empty;
        read_all = st.read_all;
      },
    )

-- Once the first message in the queue is empty, and nothing is left of an earlier one, the reader
-- gets nothing more, whatever the sizes of its buffers, and whatever segments arrive.
pub run-IsStuck :
    (es : List Event) (s : Session) → IsStuck s → ((run es s).0 ≡ []) × IsStuck (run es s).1
unfolding run
run-IsStuck [] s st = (refl, st)
run-IsStuck (e ∷ es) s st =
    let (none_now, st') = step-IsStuck e s st in
    let (none_later, st'') = run-IsStuck es (step e s).1 st' in
    (ap (λ t. t ++ (run es (step e s).1).0) none_now ∙ none_later, st'')

extend_last_filled :
    (mss : ℕ) (buffer : List ℕ) (queue : List Segment) (last : Segment)
    → 0 < length buffer
    → length last.payload + length buffer ≡ mss
    → (extend_last mss buffer (queue ++ (last ∷ []))).1 ≡ []
unfolding extend_last
extend_last_filled mss buffer [] last h e =
    let room : ltb (length last.payload) mss ≡ true = ground arith in
    rw room (drop-all _ buffer (ground arith))
extend_last_filled mss buffer (s ∷ []) last h e = extend_last_filled mss buffer [] last h e
extend_last_filled mss buffer (s ∷ t ∷ ss) last h e =
    extend_last_filled mss buffer (t ∷ ss) last h e

take-nil : (n : ℕ) → take {A = ℕ} n [] ≡ []
take-nil zero = refl
take-nil (suc n) = refl

send_rest_empty :
    (queue : List Segment) (k : Kcp)
    → is_stream k ≡ true
    → (send_rest queue [] k).1.snd_queue ≡ queue ++ (blank ∷ [])
unfolding send_rest fragments segment_count
send_rest_empty queue k stream =
    let one : leb 0 k.mss ≡ true = ground arith in rw (one, stream, take-nil) refl

-- In stream mode, a buffer that fills the last queued segment exactly leaves an empty segment queued
-- behind it, which the receiver takes for a message of no bytes.
pub send_filled :
    (buffer : List ℕ) (k : Kcp) (queue : List Segment) (last : Segment)
    → is_stream k ≡ true
    → k.snd_queue ≡ queue ++ (last ∷ [])
    → 0 < length buffer
    → length last.payload + length buffer ≡ k.mss
    → (front : List Segment) × ((send buffer k).1.snd_queue ≡ front ++ (blank ∷ []))
unfolding send send_start
send_filled buffer k queue last stream q h e =
    let some_bytes : (length buffer == 0) ≡ false = ground arith in
    let ext = extend_last k.mss buffer (queue ++ (last ∷ [])) in
    let filled : ext.1 ≡ [] = extend_last_filled k.mss buffer queue last h e in
    (ext.0, rw (some_bytes, stream, q, filled) (rw stream at (send_rest_empty ext.0 k stream)))
