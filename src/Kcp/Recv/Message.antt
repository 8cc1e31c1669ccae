-- ===== src/Kcp/Recv/Message.antt =====
-- What `Recv` of network/kcp/kcp.go gives to the caller.
use emt.Common.{
  ℕ, zero, suc, ◌+◌, ◌*◌, ◌%◌, ◌≤◌, ◌<◌, ◌≡◌, refl, sym, ap, ◌∙◌, inl, inr, false, List, [], ◌∷◌,
  ◌++◌, append_assoc, length, length-append, drop, take-append-drop, length-drop, take-all, arith,
  ◌==◌, Bool-cases,
}
use emt.Word.{pos, negsuc}
use emt.Kcp.State.{Segment, Kcp}
use emt.Kcp.Recv.{message_size, peek_queue, peek_size, take_message, receive, recv}
use emt.Kcp.Recv.Ready.{IsReceiving, Delivers, move_ready_lem}
use emt.Kcp.Send.{piece, fragments, segment_count, is_stream, send}
use emt.Kcp.Send.Fragments.{payloads, send_message, segment_count-enough, length-fragments}

message_size-take_message : (ss : List Segment) → message_size ss ≡ length (take_message ss).0
unfolding message_size take_message
message_size-take_message [] = refl
message_size-take_message (s ∷ ss) = elim (Bool-cases (s.frg == 0)) [
  | inl end ↦ rw end
  | inr more ↦ rw (more, length-append s.payload (take_message ss).0, message_size-take_message ss)
]

-- What the loop of `Recv` copies out is the front of what the queue holds.
take_message-payloads :
    (ss : List Segment)
    → (take_message ss).0 ++ payloads (drop (take_message ss).1 ss) ≡ payloads ss
unfolding take_message
take_message-payloads [] = refl
take_message-payloads (s ∷ ss) = elim (Bool-cases (s.frg == 0)) [
  | inl end ↦ rw end
  | inr more ↦ rw (more, append_assoc) (ap (λ bytes. s.payload ++ bytes) (take_message-payloads ss))
]

peek_queue-eq-pos : (ss : List Segment) (n : ℕ) → peek_queue ss ≡ pos n → n ≡ message_size ss
unfolding peek_queue
peek_queue-eq-pos [] n e = cc
peek_queue-eq-pos (s ∷ ss) n e = ground arith

-- The state behind the first loop of `Recv`: the first message is off the queue.
abbrev pub message_taken : Kcp → Kcp
message_taken k = record k { rcv_queue = drop (take_message k.rcv_queue).1 k.rcv_queue }

-- Behind the guards `Recv` takes the first message off the queue.
pub receive_lem :
    (k : Kcp)
    → IsReceiving k
    → let (code, bytes, k') = receive k in
      (code ≡ pos (message_size k.rcv_queue))
      × (length bytes ≡ message_size k.rcv_queue)
      × (bytes ++ payloads (message_taken k).rcv_queue ≡ payloads k.rcv_queue)
      × IsReceiving k'
      × (moved : List Segment) × Delivers (message_taken k) k' moved
unfolding receive
receive_lem k v =
    let (w, moved, d) =
      move_ready_lem (message_taken k) (record { nxt = v.nxt; wnd = v.wnd; buf = v.buf }) in
    (
      ap pos (sym (message_size-take_message k.rcv_queue)),
      sym (message_size-take_message k.rcv_queue),
      take_message-payloads k.rcv_queue,
      record { nxt = w.nxt; wnd = w.wnd; buf = w.buf },
      moved,
      record {
        queue = d.queue;
        buf = d.buf;
        numbers = d.numbers;
        nxt = d.nxt;
        room = d.room;
        waiting = d.waiting;
      },
    )

module _ (size : ℕ) (k : Kcp) where
  recv-receive : (n : ℕ) → peek_size k ≡ pos n → n ≤ size → recv size k ≡ receive k
  unfolding recv
  recv-receive n e h = rw e (ground arith)

  -- With no whole message, or one that is longer than the buffer, `Recv` changes nothing.
  pub recv_refused :
      (n : ℕ)
      → (peek_size k ≡ negsuc n → recv size k ≡ (negsuc 0, [], k))
        × (peek_size k ≡ pos n → size < n → recv size k ≡ (negsuc 1, [], k))
  unfolding recv
  recv_refused n = (λ e. rw e (ground arith), λ e h. rw e (ground arith))

  -- With the receive buffer in order, a message that fits the caller's buffer is received: the result is its size as `PeekSize` gives it, the
  -- bytes are the front of what the queue holds, and what follows in order moves up from the buffer.
  pub recv_message :
      (n : ℕ)
      → IsReceiving k
      → peek_size k ≡ pos n
      → n ≤ size
      → let (code, bytes, k') = recv size k in
        (code ≡ pos n)
        × (length bytes ≡ n)
        × (bytes ++ payloads (message_taken k).rcv_queue ≡ payloads k.rcv_queue)
        × IsReceiving k'
        × (moved : List Segment) × Delivers (message_taken k) k' moved
  recv_message n v e h =
      rw (recv-receive n e h, peek_queue-eq-pos k.rcv_queue n (unfold peek_size in e))
        (receive_lem k v)

-- The second queue holds copies of the segments of the first: the same fragment numbers and bytes.
abbrev pub IsCopy : List Segment → List Segment → Type 0
IsCopy [] [] = Unit {0}
IsCopy (s ∷ ss) (t ∷ ts) = (t.frg ≡ s.frg) × (t.payload ≡ s.payload) × IsCopy ss ts
IsCopy _ _ = ⊥

length-drop-piece :
    (mss n : ℕ) (buffer : List ℕ)
    → length buffer ≤ suc n * mss
    → length (drop (piece mss buffer) buffer) ≤ n * mss
length-drop-piece mss n buffer h = rw length-drop (ground (arith, h))

-- The loop of `Recv` puts a cut buffer together again.
take_message-fragments :
    (mss left : ℕ) (buffer : List ℕ) (copy rest : List Segment)
    → left < 256
    → length buffer ≤ suc left * mss
    → IsCopy (fragments false mss (suc left) buffer) copy
    → take_message (copy ++ rest) ≡ (buffer, suc left)
unfolding take_message fragments
take_message-fragments mss zero buffer [] rest hl hb c = absurd c
take_message-fragments mss zero buffer (t ∷ ts) rest hl hb (ef, ep, c) =
    rw (ef, ep) (ap (λ bytes. (bytes, 1)) (take-all _ buffer (ground arith)))
take_message-fragments mss (suc left) buffer [] rest hl hb c = absurd c
take_message-fragments mss (suc left) buffer (t ∷ ts) rest hl hb (ef, ep, c) =
    let ih =
      take_message-fragments mss left (drop (piece mss buffer) buffer) ts rest (omega arith)
        (length-drop-piece mss (suc left) buffer hb) c in
    let more : (t.frg == 0) ≡ false = ground arith in rw (more, ih, ep, take-append-drop)

length-IsCopy : (ss ts : List Segment) → IsCopy ss ts → length ts ≡ length ss
length-IsCopy [] [] c = refl
length-IsCopy [] (t ∷ ts) c = absurd c
length-IsCopy (s ∷ ss) [] c = absurd c
length-IsCopy (s ∷ ss) (t ∷ ts) (ef, ep, c) = ap suc (length-IsCopy ss ts c)

peek_queue-whole :
    (s : Segment) (ss : List Segment)
    → s.frg < 255
    → s.frg + 1 ≤ length (s ∷ ss)
    → peek_queue (s ∷ ss) ≡ pos (message_size (s ∷ ss))
unfolding peek_queue message_size
peek_queue-whole s ss h l = ground arith

-- All fragments of a message have come, so `PeekSize` gives its size.
peek_queue-fragments :
    (mss left : ℕ) (buffer : List ℕ) (copy rest : List Segment)
    → left < 255
    → length buffer ≤ suc left * mss
    → IsCopy (fragments false mss (suc left) buffer) copy
    → peek_queue (copy ++ rest) ≡ pos (length buffer)
peek_queue-fragments mss left buffer [] rest hl hb c = unfold fragments in absurd c
peek_queue-fragments mss left buffer (t ∷ ts) rest hl hb c =
    let whole = take_message-fragments mss left buffer (t ∷ ts) rest (omega arith) hb c in
    let size : message_size (t ∷ ts ++ rest) ≡ length buffer =
      message_size-take_message (t ∷ ts ++ rest) ∙ ap (λ p. length p.0) whole in
    let frg : t.frg ≡ left % 256 = unfold fragments in c.0 in
    let len = length-IsCopy _ (t ∷ ts) c ∙ length-fragments false mss (suc left) buffer in
    peek_queue-whole t (ts ++ rest) (omega arith) (omega (arith, length-append {0} ts rest, len))
    ∙ ap pos size

receive_bytes :
    (k : Kcp) (buffer : List ℕ)
    → (take_message k.rcv_queue).0 ≡ buffer
    → ((receive k).0 ≡ pos (length buffer)) × ((receive k).1 ≡ buffer)
unfolding receive
receive_bytes k buffer e = (ap (λ bytes. pos (length bytes)) e, e)

-- A count from 1 to 255 is that of the rounds after the first, and one.
fragments_arrive :
    (mss count : ℕ) (buffer : List ℕ) (copy rest : List Segment)
    → 0 < count
    → count ≤ 255
    → length buffer ≤ count * mss
    → IsCopy (fragments false mss count buffer) copy
    → (peek_queue (copy ++ rest) ≡ pos (length buffer)) × ((take_message (copy ++ rest)).0 ≡ buffer)
fragments_arrive mss zero buffer copy rest hc h hb c = elim hc [ ]
fragments_arrive mss (suc left) buffer copy rest hc h hb c = (
  peek_queue-fragments mss left buffer copy rest (omega arith) hb c,
  ap (λ p. p.0) (take_message-fragments mss left buffer copy rest (omega arith) hb c),
)

-- What `Send` took in message mode, into an empty queue, `Recv` gives back whole: if the segments that it queued stand, with
-- their fragment numbers and bytes, at the front of the receiver's queue, and the buffer is large
-- enough, then the receiver reads the sent bytes, and no others.
pub recv-send :
    (buffer : List ℕ) (size : ℕ) (s k : Kcp) (copy rest : List Segment)
    → is_stream s ≡ false
    → 0 < s.mss
    → s.snd_queue ≡ []
    → (send buffer s).0 ≡ pos 0
    → IsCopy (send buffer s).1.snd_queue copy
    → k.rcv_queue ≡ copy ++ rest
    → length buffer ≤ size
    → ((recv size k).0 ≡ pos (length buffer)) × ((recv size k).1 ≡ buffer)
recv-send buffer size s k copy rest m hm none_queued sent c arrived h =
    elim (send_message buffer s m) [
      | inl (z, e) ↦ cc (ap (λ p. p.0) e)
      | inr (inl (big, e, same)) ↦ cc e
      | inr (inr (small, e, q)) ↦
          let (enough, some_segments) = segment_count-enough s.mss (length buffer) hm in
          let (peek, bytes) =
            fragments_arrive s.mss (segment_count s.mss (length buffer)) buffer copy rest
              some_segments small enough (rw (q, none_queued) at c) in
          let recd = recv-receive size k (length buffer) (unfold peek_size in rw arrived peek) h in
          rw recd (receive_bytes k buffer (rw arrived bytes))
    ]
