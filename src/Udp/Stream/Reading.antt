-- ===== src/Udp/Stream/Reading.antt =====
-- `Read` of network/kcp/udp.go: the reader gets the stream of the messages.
use emt.Common.{
  ℕ, zero, suc, ◌≤◌, ◌≡◌, refl, sym, ap, ◌∙◌, inl, inr, List, [], ◌∷◌, ◌++◌, append_assoc,
  append-nil, length, take, drop, take-append-drop, length-take, arith, leb, Bool-cases,
}
use emt.Word.{ℤ, pos, negsuc, add32, add32-zero}
use emt.Kcp.State.{Segment, Kcp}
use emt.Kcp.Recv.{peek_size, recv}
use emt.Kcp.Recv.Ready.{IsConsecutive, IsReceiving}
use emt.Kcp.Recv.Message.{recv_message, message_taken}
use emt.Kcp.Send.Fragments.{payloads, payloads-append}
use emt.Udp.Session.{Session}
use emt.Udp.Stream.{ReadResult, got, waits, read_whole, read_part, read_peeked, read_round, read}

-- What the reader has not read of the messages in the queue.
abbrev pub unread : Session → List ℕ
unread s = s.bufptr ++ payloads s.kcp.rcv_queue

-- A round that gave bytes: they come first of what was not read, and the count is theirs. The segments
-- with the next numbers have moved up from the receive buffer behind the rest.
pub record Reads (size : ℕ) (s : Session) (n : ℕ) (bytes : List ℕ) (s' : Session) : Type 0 where
  pub moved : List Segment
  pub count : n ≡ length bytes
  pub fits : n ≤ size
  pub stream : bytes ++ unread s' ≡ unread s ++ payloads moved
  pub front : moved ++ s'.kcp.rcv_buf ≡ s.kcp.rcv_buf
  pub numbers : IsConsecutive s.kcp.rcv_nxt moved
  pub nxt : s'.kcp.rcv_nxt ≡ add32 s.kcp.rcv_nxt (length moved)
  pub receiving : IsReceiving s'.kcp

-- What a round promises.
abbrev pub IsRead : ℕ → Session → ReadResult × Session → Type 0
IsRead size s (got n bytes, s') = Reads size s n bytes s'
IsRead size s (waits, s') = s' ≡ s

-- `Recv` of the protocol, seen as a stream.
recv_stream :
    (size n : ℕ) (k : Kcp)
    → IsReceiving k
    → peek_size k ≡ pos n
    → n ≤ size
    → let (code, bytes, k') = recv size k in
      (moved : List Segment) × (length bytes ≡ n)
      × (bytes ++ payloads k'.rcv_queue ≡ payloads k.rcv_queue ++ payloads moved)
      × IsReceiving k'
      × (moved ++ k'.rcv_buf ≡ k.rcv_buf)
      × IsConsecutive k.rcv_nxt moved
      × (k'.rcv_nxt ≡ add32 k.rcv_nxt (length moved))
recv_stream size n k v e h =
    let (code, len, stream, w, moved, d) = recv_message size k n v e h in
    let bytes = (recv size k).1 in
    (
      moved,
      len,
      ap (λ q. bytes ++ payloads q) d.queue
          ∙ ap (λ q. bytes ++ q) (payloads-append (message_taken k).rcv_queue moved)
          ∙ sym (append_assoc bytes _ _)
          ∙ ap (λ q. q ++ payloads moved) stream,
      w,
      d.buf,
      d.numbers,
      d.nxt,
    )

module _ (size n : ℕ) (s : Session) (v : IsReceiving s.kcp) (e : peek_size s.kcp ≡ pos n) where
  read_whole-Reads : s.bufptr ≡ [] → n ≤ size → IsRead size s (read_whole size n s)
  unfolding read_whole
  read_whole-Reads empty h =
      let (moved, len, stream, w, front, numbers, nxt) = recv_stream size n s.kcp v e h in
      record {
        moved = moved;
        count = sym len;
        fits = h;
        stream = rw empty stream;
        front = front;
        numbers = numbers;
        nxt = nxt;
        receiving = w;
      }

  read_part-Reads : s.bufptr ≡ [] → size ≤ n → IsRead size s (read_part size n s)
  unfolding read_part
  read_part-Reads empty h =
      let (moved, len, stream, w, front, numbers, nxt) = recv_stream n n s.kcp v e (omega arith) in
      let bytes = (recv n s.kcp).1 in
      record {
        moved = moved;
        count = refl;
        fits = omega (arith, length-take size bytes);
        stream =
            sym (append_assoc (take size bytes) (drop size bytes) _)
            ∙ ap (λ t. t ++ payloads (recv n s.kcp).2.rcv_queue) (take-append-drop size bytes)
            ∙ rw empty stream;
        front = front;
        numbers = numbers;
        nxt = nxt;
        receiving = w;
      }

read_peeked-IsRead :
    (size : ℕ) (s : Session) (z : ℤ)
    → IsReceiving s.kcp
    → s.bufptr ≡ []
    → peek_size s.kcp ≡ z
    → IsRead size s (read_peeked size z s)
unfolding read_peeked
read_peeked-IsRead size s (pos zero) v empty e = refl
read_peeked-IsRead size s (negsuc n) v empty e = refl
read_peeked-IsRead size s (pos (suc n)) v empty e = elim (Bool-cases (leb (suc n) size)) [
  | inl whole ↦ rw whole (read_whole-Reads size (suc n) s v e empty (ground arith))
  | inr part ↦ rw part (read_part-Reads size (suc n) s v e empty (ground arith))
]

read_round-IsRead :
    (size : ℕ) (s : Session) (buf : List ℕ)
    → IsReceiving s.kcp
    → s.bufptr ≡ buf
    → IsRead size s (read_round size buf s)
unfolding read_round
read_round-IsRead size s [] v e = read_peeked-IsRead size s (peek_size s.kcp) v e refl
read_round-IsRead size s (b ∷ bs) v e = record {
  moved = [];
  count = refl;
  fits = omega (arith, length-take size (b ∷ bs));
  stream = rw e (
      sym (append_assoc (take size (b ∷ bs)) (drop size (b ∷ bs)) _)
      ∙ ap (λ t. t ++ payloads s.kcp.rcv_queue) (take-append-drop size (b ∷ bs))
      ∙ sym (append-nil _));
  front = refl;
  numbers = tt;
  nxt = sym (add32-zero s.kcp.rcv_nxt v.nxt);
  receiving = v;
}

-- With the receive buffer in order, a round of `Read` either waits, and changes nothing, or gives
-- bytes: as many as it says, no more than the buffer takes, and the ones that come next in the stream
-- of the bytes that the session holds for the reader.
pub read-IsRead : (size : ℕ) (s : Session) → IsReceiving s.kcp → IsRead size s (read size s)
unfolding read
read-IsRead size s v = read_round-IsRead size s s.bufptr v refl
