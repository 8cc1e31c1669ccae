-- ===== src/Kcp/Ack/Marks.antt =====
-- What `parseAck` of network/kcp/kcp.go changes: its loop stops early, and still does what a pass
-- over all of `SndBuf` would.
use emt.Common.{
  ℕ, suc, ◌-◌, ◌^◌, ◌≤◌, ◌<◌, ◌≡◌, refl, sym, ap, ◌∙◌, inl, inr, false, ◌||◌, List, [], ◌∷◌, map,
  length, arith, ltb, leb, ◌==◌, Bool-cases, if◌then◌else◌,
}
use emt.Word.{IsU32, sub32, add32, add32-IsU32, pos, ltb_ℤ}
use emt.Kcp.State.{Segment, Kcp}
use emt.Kcp.Window.{itimediff, lt-zero, zero-le}
use emt.Kcp.Recv.Ready.{IsConsecutive}
use emt.Kcp.Ack.{mark_acked, parse_ack, out_of_flight}
use emt.Kcp.Ack.Flight.{IsSending}

-- A segment with the number `sn` is acknowledged and gives up its bytes.
abbrev pub ack_mark : ℕ → Segment → Segment
ack_mark sn s = if sn == s.sn then record s { acked = 1; payload = [] } else s

sub32_next :
    (sn base : ℕ)
    → IsU32 sn
    → IsU32 base
    → 0 < sub32 sn base
    → suc (sub32 sn (add32 base 1)) ≡ sub32 sn base
unfolding sub32 add32
sub32_next sn base hs hb h = omega arith

sub32_self_next : (base : ℕ) → IsU32 base → sub32 base (add32 base 1) ≡ 2 ^ 32 - 1
unfolding sub32 add32
sub32_self_next base h = omega arith

sub32-zero : (sn base : ℕ) → IsU32 sn → IsU32 base → (sn == base) ≡ (sub32 sn base == 0)
unfolding sub32
sub32-zero sn base hs hb = ground arith

-- No segment has a number that lies behind the last.
map-ack_mark_behind :
    (sn base : ℕ) (ss : List Segment)
    → IsU32 sn
    → IsU32 base
    → length ss ≤ sub32 sn base
    → IsConsecutive base ss
    → map (ack_mark sn) ss ≡ ss
map-ack_mark_behind sn base [] hs hb h c = refl
map-ack_mark_behind sn base (s ∷ ss) hs hb h (e, c) =
    let ne : (sn == s.sn) ≡ false = rw (e, sub32-zero sn base hs hb) (ground arith) in
    rw ne (
      ap (λ t. s ∷ t)
        (map-ack_mark_behind sn (add32 base 1) ss hs (add32-IsU32 base 1)
          (omega (arith, sub32_next sn base hs hb (omega arith))) c))

mark_acked-map :
    (sn base : ℕ) (ss : List Segment)
    → IsU32 sn
    → IsU32 base
    → length ss < 2 ^ 31
    → sub32 sn base < length ss
    → IsConsecutive base ss
    → mark_acked sn ss ≡ map (ack_mark sn) ss
unfolding mark_acked
mark_acked-map sn base [] hs hb hl h c = refl
mark_acked-map sn base (s ∷ ss) hs hb hl h (e, c) = elim (Bool-cases (sn == s.sn)) [
  | inl same ↦ rw same (
      ap (λ t. record s { acked = 1; payload = [] } ∷ t)
        (sym (
          map-ack_mark_behind sn (add32 base 1) ss hs (add32-IsU32 base 1)
            (let q : sn ≡ base = ground arith in rw (q, sub32_self_next base hb) (omega arith)) c)))
  | inr ne ↦
      let far : (sub32 sn base == 0) ≡ false = sym (sub32-zero sn base hs hb) ∙ rw (← e) ne in
      let going : ltb_ℤ (itimediff sn s.sn) (pos 0) ≡ false =
        rw (e, lt-zero sn base) (ground arith) in
      rw (ne, going)
        (ap (λ t. s ∷ t)
          (mark_acked-map sn (add32 base 1) ss hs (add32-IsU32 base 1) (omega arith)
            (ground (arith, sub32_next sn base hs hb)) c))
]

-- The guard of both functions: the number is not one of those in flight.
pub out_of_flight_test :
    (sn : ℕ) (k : Kcp)
    → IsU32 sn
    → IsSending k
    → out_of_flight sn k ≡ leb (length k.snd_buf) (sub32 sn k.snd_una)
unfolding out_of_flight
out_of_flight_test sn k hs v =
    rw (lt-zero sn k.snd_una, zero-le sn k.snd_nxt, v.nxt)
      (go (length k.snd_buf) k.snd_una v.few v.una)
  where
    go :
        (n una : ℕ)
        → n < 2 ^ 31
        → IsU32 una
        → (leb (2 ^ 31) (sub32 sn una) || ltb (sub32 sn (add32 una n)) (2 ^ 31))
          ≡ leb n (sub32 sn una)
    go n una hn hu = unfold sub32 add32 in ground arith

-- With the numbers in flight in their places, `parseAck` marks the segment with the acknowledged
-- number, whatever 32-bit number it is, and no other.
pub parse_ack_lem :
    (sn : ℕ) (k : Kcp)
    → IsU32 sn
    → IsSending k
    → parse_ack sn k ≡ record k { snd_buf = map (ack_mark sn) k.snd_buf }
unfolding parse_ack
parse_ack_lem sn k hs v = elim (Bool-cases (leb (length k.snd_buf) (sub32 sn k.snd_una))) [
  | inl out ↦ rw (
    out_of_flight_test sn k hs v,
    out,
    map-ack_mark_behind sn k.snd_una k.snd_buf hs v.una (ground arith) v.numbers,
  )
  | inr in_flight ↦ rw (
    out_of_flight_test sn k hs v,
    in_flight,
    mark_acked-map sn k.snd_una k.snd_buf hs v.una v.few (ground arith) v.numbers,
  )
]
