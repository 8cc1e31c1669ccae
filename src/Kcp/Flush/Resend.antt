-- ===== src/Kcp/Flush/Resend.antt =====
-- The loop of `rangeRef` in network/kcp/kcp.go: it stamps and sends segments, and keeps their numbers
-- and their bytes.
use emt.Common.{
  ℕ, suc, ◌+◌, ◌≤◌, ◌≡◌, refl, ap, ap₂, ◌∙◌, inl, inr, List, [], ◌∷◌, ◌++◌, length, arith, ◌==◌,
  Bool-cases, All,
}
use emt.Word.{add32}
use emt.Kcp.State.{Segment, Kcp}
use emt.Kcp.Recv.Ready.{IsConsecutive}
use emt.Kcp.Send.Fragments.{payloads}
use emt.Kcp.Ack.{Clock}
use emt.Kcp.Writer.{limits}
use emt.Kcp.Writer.Bounds.{IsWritable, IsWithin, segment-IsWithin}
use emt.Kcp.Transmit.{
  Kind, kind_of, rearm, Scan, tally, needs_send, transmit, lower_minrto, attempt, visit, range_ref,
}

-- A step keeps the number, the bytes and the acknowledgement of a segment.
pub record Keeps (s t : Segment) : Type 0 where
  pub sn : t.sn ≡ s.sn
  pub payload : t.payload ≡ s.payload
  pub acked : t.acked ≡ s.acked

Keeps-refl : (s : Segment) → Keeps s s
Keeps-refl s = record { sn = refl; payload = refl; acked = refl }

rearm-Keeps :
    (rx_rto nodelay now : ℕ) (kind : Kind) (s : Segment) → Keeps s (rearm rx_rto nodelay now kind s)
unfolding rearm
rearm-Keeps rx_rto nodelay now Kind.first s = record { sn = refl; payload = refl; acked = refl }
rearm-Keeps rx_rto nodelay now Kind.fast s = record { sn = refl; payload = refl; acked = refl }
rearm-Keeps rx_rto nodelay now Kind.early s = record { sn = refl; payload = refl; acked = refl }
rearm-Keeps rx_rto nodelay now Kind.lost s = record { sn = refl; payload = refl; acked = refl }
rearm-Keeps rx_rto nodelay now Kind.idle s = Keeps-refl s

tally-writer : (kind : Kind) (a : Scan) → (tally kind a).writer ≡ a.writer
unfolding tally
tally-writer Kind.first a = refl
tally-writer Kind.fast a = refl
tally-writer Kind.early a = refl
tally-writer Kind.lost a = refl
tally-writer Kind.idle a = refl

lower_minrto-writer : (s : Segment) (a : Scan) → (lower_minrto s a).writer ≡ a.writer
unfolding lower_minrto
lower_minrto-writer s a = ground arith

Keeps-trans : {s t u : Segment} → Keeps s t → Keeps t u → Keeps s u
Keeps-trans p q = record {
  sn = q.sn ∙ p.sn;
  payload = q.payload ∙ p.payload;
  acked = q.acked ∙ p.acked;
}

-- The segments of the first list, each kept, in order.
abbrev pub KeepAll : List Segment → List Segment → Type 0
KeepAll [] [] = Unit {0}
KeepAll (s ∷ ss) (t ∷ ts) = Keeps s t × KeepAll ss ts
KeepAll _ _ = ⊥

module _ (clock : Clock) (k : Kcp) (resent new_count : ℕ) (seg : Segment) where
  transmit-Keeps : (s : Segment) (a : Scan) → Keeps s (transmit clock k seg s a).0
  unfolding transmit
  transmit-Keeps s a = record { sn = refl; payload = refl; acked = refl }

  transmit-IsWithin :
      (s : Segment) (a : Scan)
      → IsWritable (limits k)
      → k.reserved + (24 + length s.payload) ≤ k.mtu
      → IsWithin (limits k) a.writer
      → IsWithin (limits k) (transmit clock k seg s a).1.writer
  unfolding transmit
  transmit-IsWithin s a ok fit v = segment-IsWithin (limits k) ok a.writer v _ fit

  attempt-Keeps : (kind : Kind) (s : Segment) (a : Scan) → Keeps s (attempt clock k seg kind s a).0
  unfolding attempt
  attempt-Keeps kind s a =
      let s' = rearm k.rx_rto k.nodelay a.now kind s in
      let kept = rearm-Keeps k.rx_rto k.nodelay a.now kind s in
      elim (Bool-cases (needs_send kind)) [
        | inl yes_send ↦ rw yes_send (Keeps-trans kept (transmit-Keeps s' (tally kind a)))
        | inr no_send ↦ rw no_send kept
      ]

  attempt-IsWithin :
      (kind : Kind) (s : Segment) (a : Scan)
      → IsWritable (limits k)
      → k.reserved + (24 + length s.payload) ≤ k.mtu
      → IsWithin (limits k) a.writer
      → IsWithin (limits k) (attempt clock k seg kind s a).1.writer
  unfolding attempt
  attempt-IsWithin kind s a ok fit v =
      let s' = rearm k.rx_rto k.nodelay a.now kind s in
      let kept = rearm-Keeps k.rx_rto k.nodelay a.now kind s in
      elim (Bool-cases (needs_send kind)) [
        | inl yes_send ↦ rw yes_send (
            transmit-IsWithin s' (tally kind a) ok (rw kept.payload fit)
              (rw (tally-writer kind a) v))
        | inr no_send ↦ rw no_send v
      ]

  visit-Keeps : (s : Segment) (a : Scan) → Keeps s (visit clock k resent new_count seg s a).0
  unfolding visit
  visit-Keeps s a = elim (Bool-cases (s.acked == 1)) [
    | inl acked ↦ rw acked (Keeps-refl s)
    | inr open_seg ↦ rw open_seg (attempt-Keeps (kind_of resent new_count a.now s) s a)
  ]

  visit-IsWithin :
      (s : Segment) (a : Scan)
      → IsWritable (limits k)
      → k.reserved + (24 + length s.payload) ≤ k.mtu
      → IsWithin (limits k) a.writer
      → IsWithin (limits k) (visit clock k resent new_count seg s a).1.writer
  unfolding visit
  visit-IsWithin s a ok fit v = elim (Bool-cases (s.acked == 1)) [
    | inl acked ↦ rw acked v
    | inr open_seg ↦
        rw open_seg (
          rw lower_minrto-writer (attempt-IsWithin (kind_of resent new_count a.now s) s a ok fit v))
  ]

  -- The loop keeps every segment's number and bytes.
  pub range_ref-KeepAll :
      (ss : List Segment) (a : Scan) → KeepAll ss (range_ref clock k resent new_count seg ss a).0
  unfolding range_ref
  range_ref-KeepAll [] a = tt
  range_ref-KeepAll (s ∷ ss) a =
      (visit-Keeps s a, range_ref-KeepAll ss (visit clock k resent new_count seg s a).1)

  -- The loop keeps the output within its bounds.
  pub range_ref-IsWithin :
      (ss : List Segment) (a : Scan)
      → IsWritable (limits k)
      → All (λ s. k.reserved + (24 + length s.payload) ≤ k.mtu) ss
      → IsWithin (limits k) a.writer
      → IsWithin (limits k) (range_ref clock k resent new_count seg ss a).1.writer
  unfolding range_ref
  range_ref-IsWithin [] a ok fit v = v
  range_ref-IsWithin (s ∷ ss) a ok (fit, fits) v =
      range_ref-IsWithin ss (visit clock k resent new_count seg s a).1 ok fits
        (visit-IsWithin s a ok fit v)

-- What follows from keeping numbers and bytes.
pub KeepAll-IsConsecutive :
    (base : ℕ) (ss ts : List Segment)
    → KeepAll ss ts
    → IsConsecutive base ss
    → IsConsecutive base ts
KeepAll-IsConsecutive base [] [] q c = tt
KeepAll-IsConsecutive base [] (t ∷ ts) q c = absurd q
KeepAll-IsConsecutive base (s ∷ ss) [] q c = absurd q
KeepAll-IsConsecutive base (s ∷ ss) (t ∷ ts) (kept, q) (e, c) =
    (kept.sn ∙ e, KeepAll-IsConsecutive (add32 base 1) ss ts q c)

pub KeepAll-length : (ss ts : List Segment) → KeepAll ss ts → length ts ≡ length ss
KeepAll-length [] [] q = refl
KeepAll-length [] (t ∷ ts) q = absurd q
KeepAll-length (s ∷ ss) [] q = absurd q
KeepAll-length (s ∷ ss) (t ∷ ts) (kept, q) = ap suc (KeepAll-length ss ts q)

pub KeepAll-payloads : (ss ts : List Segment) → KeepAll ss ts → payloads ts ≡ payloads ss
KeepAll-payloads [] [] q = refl
KeepAll-payloads [] (t ∷ ts) q = absurd q
KeepAll-payloads (s ∷ ss) [] q = absurd q
KeepAll-payloads (s ∷ ss) (t ∷ ts) (kept, q) = ap₂ ◌++◌ kept.payload (KeepAll-payloads ss ts q)

pub KeepAll-All :
    (mss : ℕ) (ss ts : List Segment)
    → KeepAll ss ts
    → All (λ s. length s.payload ≤ mss) ss
    → All (λ s. length s.payload ≤ mss) ts
KeepAll-All mss [] [] q h = tt
KeepAll-All mss [] (t ∷ ts) q h = absurd q
KeepAll-All mss (s ∷ ss) [] q h = absurd q
KeepAll-All mss (s ∷ ss) (t ∷ ts) (kept, q) (h, hs) =
    (rw kept.payload h, KeepAll-All mss ss ts q hs)
