-- ===== src/Udp/Stream.antt =====
-- `Read`, `Write` and `WriteBuffers` of network/kcp/udp.go. `Read` and `WriteBuffers` are loops around
-- a wait for an event; one round is a definition here, whose result says whether the code waits.
pub mod Reading
pub mod Writing
pub mod Run
pub mod Stuck
use emt.Common.{
  ℕ, zero, suc, ◌+◌, ◌%◌, Bool, true, false, ◌&&◌, ◌||◌, not, Option, none, some, List, [], ◌∷◌,
  length, take, drop, ltb, leb, if◌then◌else◌,
}
use emt.Word.{ℤ, pos, negsuc, u64_mod}
use emt.Kcp.State.{Kcp}
use emt.Kcp.Recv.{peek_size, recv}
use emt.Kcp.Send.{send}
use emt.Kcp.Flush.{flush}
use emt.Udp.Session.{World, Session, Counters, with_kcp, uncork, can_write, total}

-- How a round of `Read` ends: with the count that it returns and the bytes that it wrote to the
-- caller's buffer, or with a wait.
pub data ReadResult : Type 0 where
  got : ℕ → List ℕ → ReadResult
  waits : ReadResult

abbrev pub count_received : ℕ → Session → Session
count_received n s = record s {
  counters = record s.counters { bytes_received = (s.counters.bytes_received + n) % u64_mod };
}

-- What `Recv` left in the session.
abbrev pub after_recv : ℤ × List ℕ × Kcp → Session → Session
after_recv (code, bytes, k) s = record s { kcp = k }

-- A message of `n` bytes that fits is received into the caller's buffer.
unfoldable pub read_whole : ℕ → ℕ → Session → ReadResult × Session
read_whole size n s = let r = recv size s.kcp in (got n r.1, count_received n (after_recv r s))

-- A longer one is received into `recvbuf`, and what the caller's buffer does not take stays in
-- `bufptr`.
unfoldable pub read_part : ℕ → ℕ → Session → ReadResult × Session
read_part size n s =
    let r = recv n s.kcp in
    let copied = take size r.1 in
    (
      got (length copied) copied,
      count_received (length copied) (record (after_recv r s) { bufptr = drop size r.1 }),
    )

-- What `Read` does with the size of the next message.
unfoldable pub read_peeked : ℕ → ℤ → Session → ReadResult × Session
unfolding read_whole read_part
read_peeked size (pos (suc n)) s =
    if leb (suc n) size then read_whole size (suc n) s else read_part size (suc n) s
read_peeked size (pos zero) s = (waits, s)
read_peeked size (negsuc n) s = (waits, s)

-- A round of `Read` into a buffer of `size` bytes; the list is `bufptr`.
unfoldable pub read_round : ℕ → List ℕ → Session → ReadResult × Session
unfolding read_peeked
read_round size [] s = read_peeked size (peek_size s.kcp) s
read_round size (b ∷ bs) s =
    let copied = take size (b ∷ bs) in
    (
      got (length copied) copied,
      count_received (length copied) (record s { bufptr = drop size (b ∷ bs) }),
    )

unfoldable pub read : ℕ → Session → ReadResult × Session
unfolding read_round
read size s = read_round size s.bufptr s

-- The inner loop of `WaitSnd`: a buffer goes to `Send` in pieces of `Mss` bytes, and the codes are not
-- looked at. The number bounds the rounds; with an `Mss` of 0 the code would not end.
unfoldable pub send_pieces : ℕ → List ℕ → Kcp → Kcp
send_pieces zero b k = k
send_pieces (suc fuel) b k =
    let rest = send_pieces fuel (drop k.mss b) (send (take k.mss b) k).1 in
    if leb (length b) k.mss then (send b k).1 else rest

unfoldable pub send_buffers : List (List ℕ) → Kcp → Kcp
unfolding send_pieces
send_buffers [] k = k
send_buffers (b ∷ bs) k = send_buffers bs (send_pieces (suc (length b)) b k)

-- The end of `WaitSnd`: what was queued is sent at once if a window is full or writes are not delayed.
unfoldable pub send_out : World → Session → Option Session
unfolding with_kcp uncork
send_out w s =
    if not (can_write s.kcp) || not s.write_delay
    then elim (with_kcp w (flush w.clock false s.kcp).1 s) [
      | none ↦ none
      | some s' ↦ some (uncork w s')
    ]
    else some s

-- `WaitSnd` of the session; `none` where Go panics.
unfoldable pub send_waiting : World → List (List ℕ) → Session → Option (ℕ × Session)
unfolding send_buffers send_out
send_waiting w v s = elim (send_out w (record s { kcp = send_buffers v s.kcp })) [
  | none ↦ none
  | some s' ↦ some (
    total v,
    record s' {
      counters = record s'.counters { bytes_sent = (s'.counters.bytes_sent + total v) % u64_mod };
    },
  )
]

-- How a round of `WriteBuffers` ends: with the count, with an error (of the socket, or because the
-- session is closed), with a wait, or with a panic.
pub data WriteResult : Type 0 where
  wrote : ℕ → WriteResult
  refused : WriteResult
  must_wait : WriteResult
  crashed : WriteResult

abbrev pub write_end : Session → Option (ℕ × Session) → WriteResult × Session
write_end s none = (crashed, s)
write_end s (some (n, s')) = (wrote n, s')

-- A round of `WriteBuffers`.
unfoldable pub write_buffers : World → List (List ℕ) → Session → WriteResult × Session
unfolding send_waiting
write_buffers w v s =
    if s.write_failed || s.die
    then (refused, s)
    else if can_write s.kcp
    then write_end s (send_waiting w v s)
    else (must_wait, s)

unfoldable pub write : World → List ℕ → Session → WriteResult × Session
unfolding write_buffers
write w b s = write_buffers w (b ∷ []) s
