-- ===== src/Udp/Stream/Writing.antt =====
-- `WriteBuffers` of network/kcp/udp.go: what the protocol is given.
use emt.Common.{
  ℕ, zero, suc, ◌≤◌, ◌<◌, ◌≡◌, refl, sym, ap, ◌∙◌, inl, inr, false, List, [], ◌∷◌, ◌++◌,
  append_assoc, append-nil, length, take, drop, length-take, length-drop, take-append-drop, arith,
  ltb, leb, ◌==◌, Bool-cases,
}
use emt.Word.{pos}
use emt.Kcp.State.{Segment, Kcp}
use emt.Kcp.Send.{extend_last, send, send_start, send_rest, is_stream, segment_count}
use emt.Kcp.Send.Fragments.{payloads, send-payloads}
use emt.Udp.Stream.{send_pieces, send_buffers}

-- The bytes of the buffers, one after the other.
abbrev pub concat : List (List ℕ) → List ℕ
concat [] = []
concat (b ∷ bs) = b ++ concat bs

length-extend_last :
    (mss : ℕ) (b : List ℕ) (queue : List Segment) → length (extend_last mss b queue).1 ≤ length b
unfolding extend_last
length-extend_last mss b [] = omega arith
length-extend_last mss b (s ∷ []) = elim (Bool-cases (ltb (length s.payload) mss)) [
  | inl room ↦ rw room (omega (arith, length-drop _ b))
  | inr full ↦ rw full (omega arith)
]
length-extend_last mss b (s ∷ t ∷ ss) = length-extend_last mss b (t ∷ ss)

length-send_start : (b : List ℕ) (k : Kcp) → length (send_start b k).1 ≤ length b
unfolding send_start
length-send_start b k = elim (Bool-cases (is_stream k)) [
  | inl stream ↦ rw stream (length-extend_last k.mss b k.snd_queue)
  | inr message ↦ rw message (omega arith)
]

one_segment : (mss n : ℕ) → n ≤ mss → segment_count mss n ≡ 1
unfolding segment_count
one_segment mss n h = ground arith

send_rest_small :
    (queue : List Segment) (b : List ℕ) (k : Kcp)
    → length b ≤ k.mss
    → (send_rest queue b k).0 ≡ pos 0
unfolding send_rest
send_rest_small queue b k h = rw (one_segment k.mss (length b) h) refl

send_rest-mss : (queue : List Segment) (b : List ℕ) (k : Kcp) → (send_rest queue b k).1.mss ≡ k.mss
unfolding send_rest
send_rest-mss queue b k = elim (Bool-cases (ltb 255 (segment_count k.mss (length b)))) [
  | inl big ↦ rw big refl
  | inr small ↦ rw small refl
]

send-mss : (b : List ℕ) (k : Kcp) → (send b k).1.mss ≡ k.mss
unfolding send
send-mss b k = elim (Bool-cases (length b == 0)) [
  | inl empty ↦ rw empty refl
  | inr ne ↦ rw ne (send_rest-mss _ _ k)
]

send_small : (b : List ℕ) (k : Kcp) → 0 < length b → length b ≤ k.mss → (send b k).0 ≡ pos 0
unfolding send
send_small b k h l =
    let ne : (length b == 0) ≡ false = ground arith in
    rw ne (send_rest_small _ _ k (omega (arith, length-send_start b k)))

send_empty : (k : Kcp) → (send [] k).1 ≡ k
unfolding send
send_empty k = refl

-- A buffer that fits a segment is queued behind the rest, also the empty one.
send_piece :
    (b : List ℕ) (k : Kcp)
    → 0 < k.mss
    → length b ≤ k.mss
    → payloads (send b k).1.snd_queue ≡ payloads k.snd_queue ++ b
send_piece [] k m h = ap (λ k. payloads k.snd_queue) (send_empty k) ∙ sym (append-nil _)
send_piece (b ∷ bs) k m h = send-payloads (b ∷ bs) k m (send_small (b ∷ bs) k (omega arith) h)

-- What the pieces of a buffer do.
record Pieces (k : Kcp) (b : List ℕ) (k' : Kcp) : Type 0 where
  bytes : payloads k'.snd_queue ≡ payloads k.snd_queue ++ b
  mss : k'.mss ≡ k.mss

send_pieces-Pieces :
    (fuel : ℕ) (b : List ℕ) (k : Kcp)
    → 0 < k.mss
    → length b < fuel
    → Pieces k b (send_pieces fuel b k)
unfolding send_pieces
send_pieces-Pieces zero b k m h = elim h [ ]
send_pieces-Pieces (suc fuel) b k m h = elim (Bool-cases (leb (length b) k.mss)) [
  | inl small ↦ rw small (record { bytes = send_piece b k m (ground arith); mss = send-mss b k })
  | inr big ↦
      let first = take k.mss b in
      let k1 = (send first k).1 in
      let rest =
        send_pieces-Pieces fuel (drop k.mss b) k1 (rw (send-mss first k) m)
          (ground (arith, length-drop k.mss b)) in
      rw big (record {
        bytes =
            rest.bytes
            ∙ ap (λ t. t ++ drop k.mss b)
                (send_piece first k m (omega (arith, length-take k.mss b)))
            ∙ append_assoc (payloads k.snd_queue) first (drop k.mss b)
            ∙ ap (λ t. payloads k.snd_queue ++ t) (take-append-drop k.mss b);
        mss = rest.mss ∙ send-mss first k;
      })
]

-- With an `Mss` that is not 0, the rounds that the inner loop of `WaitSnd` is given here are enough:
-- for every list of buffers the bytes of the buffers stand in order behind what was
-- queued.
pub send_buffers-payloads :
    (v : List (List ℕ)) (k : Kcp)
    → 0 < k.mss
    → payloads (send_buffers v k).snd_queue ≡ payloads k.snd_queue ++ concat v
unfolding send_buffers
send_buffers-payloads [] k m = sym (append-nil _)
send_buffers-payloads (b ∷ bs) k m =
    let one = send_pieces-Pieces (suc (length b)) b k m (omega arith) in
    let k1 = send_pieces (suc (length b)) b k in
    send_buffers-payloads bs k1 (rw one.mss m)
    ∙ ap (λ t. t ++ concat bs) one.bytes
    ∙ append_assoc (payloads k.snd_queue) b (concat bs)
