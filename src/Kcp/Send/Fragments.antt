-- ===== src/Kcp/Send/Fragments.antt =====
-- What `Send` of network/kcp/kcp.go queues.
use emt.Common.{
  ℕ, zero, suc, ◌+◌, ◌-◌, ◌*◌, ◌≤◌, ◌<◌, ◌≡◌, ◌⊎◌, refl, sym, ap, ◌∙◌, inl, inr, Bool, false, List,
  [], ◌∷◌, ◌++◌, append_assoc, append-nil, length, take, drop, take-append-drop, length-take,
  length-drop, arith, ltb, ◌==◌, Bool-cases, All,
}
use native.Mathlib.Nat.{div-add-mod, mod-lt}
use emt.Word.{pos, negsuc}
use emt.Kcp.State.{Segment, Kcp}
use emt.Kcp.Send.{extend_last, fragments, segment_count, is_stream, send_start, send_rest, send}

-- The bytes that a queue holds.
abbrev pub payloads : List Segment → List ℕ
payloads [] = []
payloads (s ∷ ss) = s.payload ++ payloads ss

pub payloads-append : (xs ys : List Segment) → payloads (xs ++ ys) ≡ payloads xs ++ payloads ys
payloads-append [] ys = refl
payloads-append (x ∷ xs) ys = rw (payloads-append xs ys, append_assoc)

pub drop-all : (n : ℕ) (xs : List ℕ) → length xs ≤ n → drop n xs ≡ []
drop-all zero [] h = refl
drop-all zero (x ∷ xs) h = absurd (omega arith)
drop-all (suc n) [] h = refl
drop-all (suc n) (x ∷ xs) h = drop-all n xs (omega arith)

-- The segments hold the buffer, if there are enough of them.
pub payloads-fragments :
    (stream : Bool) (mss count : ℕ) (buffer : List ℕ)
    → length buffer ≤ count * mss
    → payloads (fragments stream mss count buffer) ≡ buffer
unfolding fragments
payloads-fragments stream mss zero [] h = refl
payloads-fragments stream mss zero (b ∷ bs) h = absurd (omega arith)
payloads-fragments stream mss (suc left) buffer h = elim (Bool-cases (ltb mss (length buffer))) [
  | inl big ↦
      rw
        (
          big,
          payloads-fragments stream mss left (drop mss buffer)
              (omega (arith, length-drop mss buffer)),
        )
        (take-append-drop mss buffer)
  | inr small ↦
      rw
        (
          small,
          payloads-fragments stream mss left (drop (length buffer) buffer)
              (omega (arith, length-drop (length buffer) buffer)),
        )
        (take-append-drop (length buffer) buffer)
]

pub length-fragments :
    (stream : Bool) (mss count : ℕ) (buffer : List ℕ)
    → length (fragments stream mss count buffer) ≡ count
unfolding fragments
length-fragments stream mss zero buffer = refl
length-fragments stream mss (suc left) buffer = ap suc (length-fragments stream mss left _)

-- No segment is longer than `mss`.
pub fragments_bounded :
    (stream : Bool) (mss count : ℕ) (buffer : List ℕ)
    → All (λ s. length s.payload ≤ mss) (fragments stream mss count buffer)
unfolding fragments
fragments_bounded stream mss zero buffer = tt
fragments_bounded stream mss (suc left) buffer = (
  ground (arith, length-take mss buffer, length-take (length buffer) buffer),
  fragments_bounded stream mss left _,
)

-- `segment_count` is enough.
pub segment_count-enough :
    (mss len : ℕ) → 0 < mss → (len ≤ segment_count mss len * mss) × (0 < segment_count mss len)
unfolding segment_count
segment_count-enough mss len h =
    let n = len + mss - 1 in ground (arith, div-add-mod n mss, mod-lt n h)

extend_one :
    (n : ℕ) (buffer : List ℕ) (p : List ℕ)
    → ((p ++ take n buffer) ++ []) ++ drop n buffer ≡ (p ++ []) ++ buffer
extend_one n buffer p = simp (append-nil, append_assoc, take-append-drop)

-- Filling the last segment keeps the bytes in order.
pub extend_last-payloads :
    (mss : ℕ) (buffer : List ℕ) (queue : List Segment)
    → payloads (extend_last mss buffer queue).0 ++ (extend_last mss buffer queue).1
      ≡ payloads queue ++ buffer
unfolding extend_last
extend_last-payloads mss buffer [] = refl
extend_last-payloads mss buffer (s ∷ []) = elim (Bool-cases (ltb (length s.payload) mss)) [
  | inl room ↦ rw room (extend_one _ buffer s.payload)
  | inr full ↦ rw full
]
extend_last-payloads mss buffer (s ∷ t ∷ ss) =
    append_assoc s.payload _ _
    ∙ ap (λ bytes. s.payload ++ bytes) (extend_last-payloads mss buffer (t ∷ ss))
    ∙ sym (append_assoc s.payload (payloads (t ∷ ss)) buffer)

send_start-payloads :
    (buffer : List ℕ) (k : Kcp)
    → payloads (send_start buffer k).0 ++ (send_start buffer k).1 ≡ payloads k.snd_queue ++ buffer
unfolding send_start
send_start-payloads buffer k = elim (Bool-cases (is_stream k)) [
  | inl stream ↦ rw stream (extend_last-payloads k.mss buffer k.snd_queue)
  | inr message ↦ rw message
]

send_rest-payloads :
    (queue : List Segment) (buffer : List ℕ) (k : Kcp)
    → 0 < k.mss
    → (send_rest queue buffer k).0 ≡ pos 0
    → payloads (send_rest queue buffer k).1.snd_queue ≡ payloads queue ++ buffer
unfolding send_rest
send_rest-payloads queue buffer k hm e =
    let count = segment_count k.mss (length buffer) in
    elim (Bool-cases (ltb 255 count)) [
      | inl big ↦ cc (rw big at e)
      | inr small ↦ rw (
        small,
        payloads-append,
        payloads-fragments (is_stream k) k.mss count buffer
            (segment_count-enough k.mss (length buffer) hm).0,
      )
    ]

-- With an `Mss` that is not 0, in stream mode and in message mode alike, a `Send` that returns 0 adds the whole buffer behind
-- what the queue holds, in order.
pub send-payloads :
    (buffer : List ℕ) (k : Kcp)
    → 0 < k.mss
    → (send buffer k).0 ≡ pos 0
    → payloads (send buffer k).1.snd_queue ≡ payloads k.snd_queue ++ buffer
unfolding send
send-payloads buffer k hm e = elim (Bool-cases (length buffer == 0)) [
  | inl empty ↦ cc (rw empty at e)
  | inr some_bytes ↦
      let (queue, rest) = send_start buffer k in
      rw some_bytes
        (send_rest-payloads queue rest k hm (rw some_bytes at e) ∙ send_start-payloads buffer k)
]

-- In message mode a buffer of at most 255 segments is queued as fragments that count down to 0, and
-- an empty or a longer one leaves the queue as it is, with the codes -1 and -2.
pub send_message :
    (buffer : List ℕ) (k : Kcp)
    → is_stream k ≡ false
    → let count = segment_count k.mss (length buffer) in
      ((length buffer ≡ 0) × (send buffer k ≡ (negsuc 0, k)))
      ⊎ ((255 < count)
          × ((send buffer k).0 ≡ negsuc 1)
          × ((send buffer k).1.snd_queue ≡ k.snd_queue))
      ⊎ ((count ≤ 255)
          × ((send buffer k).0 ≡ pos 0)
          × ((send buffer k).1.snd_queue ≡ k.snd_queue ++ fragments false k.mss count buffer))
unfolding send send_start send_rest
send_message buffer k m = elim (Bool-cases (length buffer == 0)) [
  | inl empty ↦ inl (ground arith, rw empty)
  | inr ne ↦ elim (Bool-cases (ltb 255 (segment_count k.mss (length buffer)))) [
    | inl big ↦ inr (inl (ground arith, rw (ne, m, big), rw (ne, m, big)))
    | inr small ↦ inr (inr (ground arith, rw (ne, m, small), rw (ne, m, small)))
  ]
]
