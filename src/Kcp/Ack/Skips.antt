-- ===== src/Kcp/Ack/Skips.antt =====
-- What `parseFastack` of network/kcp/kcp.go changes, and that both parsers keep the numbers in flight.
use emt.Common.{
  ℕ, ◌+◌, ◌^◌, ◌≤◌, ◌<◌, ◌≡◌, refl, sym, ap, ap₂, ◌∙◌, inl, inr, true, false, not, ◌&&◌, List, [],
  ◌∷◌, map, length, length-map, arith, ltb, leb, ◌==◌, Bool-cases, if◌then◌else◌,
}
use emt.Word.{IsU32, sub32, add32, add32-zero, add32_add, pos, ltb_ℤ, leb_ℤ}
use emt.Kcp.State.{Segment, Kcp}
use emt.Kcp.Window.{itimediff, lt-zero}
use emt.Kcp.Recv.Ready.{IsConsecutive}
use emt.Kcp.Ack.{parse_ack, bump_fastack, parse_fastack}
use emt.Kcp.Ack.Flight.{IsSending}
use emt.Kcp.Ack.Marks.{ack_mark, parse_ack_lem, out_of_flight_test}

-- A segment less than `d` behind `una`, sent no later than `ts`, was overtaken once more.
abbrev pub skip_mark : ℕ → ℕ → ℕ → Segment → Segment
skip_mark una d ts s =
    if ltb (sub32 s.sn una) d && leb_ℤ (itimediff s.ts ts) (pos 0)
    then record s { fastack = add32 s.fastack 1 }
    else s

add32_off : (una i : ℕ) → IsU32 una → i < 2 ^ 31 → sub32 (add32 una i) una ≡ i
unfolding sub32 add32
add32_off una i hu hi = omega arith

-- One round of the loop, at the distance `i`, not behind the acknowledged number.
bump_one :
    (s : Segment) (i d ts : ℕ)
    → i ≤ d
    → (if not (d == i) && leb_ℤ (itimediff s.ts ts) (pos 0)
        then record s { fastack = add32 s.fastack 1 }
        else s)
      ≡ (if ltb i d && leb_ℤ (itimediff s.ts ts) (pos 0)
          then record s { fastack = add32 s.fastack 1 }
          else s)
bump_one s i d ts h = let e : not (d == i) ≡ ltb i d = ground arith in rw e

-- The distance from `una` of a segment that stands `i` places behind the first.
skip_mark_past :
    (una d ts i : ℕ) (ss : List Segment)
    → IsU32 una
    → d ≤ i
    → i + length ss < 2 ^ 31
    → IsConsecutive (add32 una i) ss
    → map (skip_mark una d ts) ss ≡ ss
skip_mark_past una d ts i [] hu h hl c = refl
skip_mark_past una d ts i (s ∷ ss) hu h hl (e, c) =
    let far : sub32 s.sn una ≡ i = rw e (add32_off una i hu (omega arith)) in
    let past : ltb (sub32 s.sn una) d ≡ false = ground arith in
    rw past (
      ap (λ t. s ∷ t)
        (skip_mark_past una d ts (i + 1) ss hu (omega arith) (omega arith)
          (rw (← add32_add una i 1) c)))

skip_test :
    (una sn i : ℕ)
    → IsU32 una
    → IsU32 sn
    → i < 2 ^ 31
    → sub32 sn una < 2 ^ 31
    → ltb_ℤ (itimediff sn (add32 una i)) (pos 0) ≡ ltb (sub32 sn una) i
skip_test una sn i hu hs hi hd = rw (lt-zero sn (add32 una i)) (unfold sub32 add32 in ground arith)

same_test :
    (una sn i : ℕ) → IsU32 una → IsU32 sn → i < 2 ^ 31 → (sn == add32 una i) ≡ (sub32 sn una == i)
unfolding sub32 add32
same_test una sn i hu hs hi = ground arith

bump_fastack-map :
    (una sn ts i : ℕ) (ss : List Segment)
    → IsU32 una
    → IsU32 sn
    → sub32 sn una < 2 ^ 31
    → i + length ss < 2 ^ 31
    → IsConsecutive (add32 una i) ss
    → bump_fastack sn ts ss ≡ map (skip_mark una (sub32 sn una) ts) ss
unfolding bump_fastack
bump_fastack-map una sn ts i [] hu hs hd hl c = refl
bump_fastack-map una sn ts i (s ∷ ss) hu hs hd hl (e, c) =
    let c' : IsConsecutive (add32 una (i + 1)) ss = rw (← add32_add una i 1) c in
    let off : sub32 s.sn una ≡ i = rw e (add32_off una i hu (omega arith)) in
    let stop : ltb_ℤ (itimediff sn s.sn) (pos 0) ≡ ltb (sub32 sn una) i =
      rw e (skip_test una sn i hu hs (omega arith) hd) in
    let same : (sn == s.sn) ≡ (sub32 sn una == i) = rw e (same_test una sn i hu hs (omega arith)) in
    elim (Bool-cases (ltb (sub32 sn una) i)) [
      | inl past ↦
          rw (stop, past)
            (sym (skip_mark_past una (sub32 sn una) ts i (s ∷ ss) hu (ground arith) hl (e, c)))
      | inr going ↦
          rw (stop, going, same, off)
            (ap₂ (λ a b. a ∷ b) (bump_one s i (sub32 sn una) ts (ground arith))
              (bump_fastack-map una sn ts (i + 1) ss hu hs hd (omega arith) c'))
    ]

-- With the numbers in flight in their places: `parseFastack`, for a number in flight, counts one more overtaking for each segment before it that
-- was sent no later than `ts`; for any other number it changes nothing.
pub parse_fastack_lem :
    (sn ts : ℕ) (k : Kcp)
    → IsU32 sn
    → IsSending k
    → parse_fastack sn ts k ≡ (
        if ltb (sub32 sn k.snd_una) (length k.snd_buf)
        then record k { snd_buf = map (skip_mark k.snd_una (sub32 sn k.snd_una) ts) k.snd_buf }
        else k)
unfolding parse_fastack
parse_fastack_lem sn ts k hs v = elim (Bool-cases (leb (length k.snd_buf) (sub32 sn k.snd_una))) [
  | inl out ↦
      let far : ltb (sub32 sn k.snd_una) (length k.snd_buf) ≡ false = ground arith in
      rw (out_of_flight_test sn k hs v, out, far)
  | inr in_flight ↦
      let near : ltb (sub32 sn k.snd_una) (length k.snd_buf) ≡ true = ground arith in
      let all =
        bump_fastack-map k.snd_una sn ts 0 k.snd_buf v.una hs (ground (arith, v.few))
          (omega (arith, v.few)) (rw (add32-zero k.snd_una v.una) v.numbers) in
      rw (out_of_flight_test sn k hs v, in_flight, near, all)
]

IsConsecutive-map :
    (f : Segment → Segment)
    → ((s : Segment) → (f s).sn ≡ s.sn)
    → (base : ℕ) (ss : List Segment) → IsConsecutive base ss
    → IsConsecutive base (map f ss)
IsConsecutive-map f keep base [] c = tt
IsConsecutive-map f keep base (s ∷ ss) (e, c) =
    (keep s ∙ e, IsConsecutive-map f keep (add32 base 1) ss c)

pub map-IsSending :
    (f : Segment → Segment) (k : Kcp)
    → ((s : Segment) → (f s).sn ≡ s.sn)
    → IsSending k
    → IsSending (record k { snd_buf = map f k.snd_buf })
map-IsSending f k keep v = record {
  una = v.una;
  numbers = IsConsecutive-map f keep k.snd_una k.snd_buf v.numbers;
  nxt = rw length-map v.nxt;
  few = rw length-map v.few;
}

pub parse_ack-IsSending : (sn : ℕ) (k : Kcp) → IsU32 sn → IsSending k → IsSending (parse_ack sn k)
parse_ack-IsSending sn k hs v =
    rw (parse_ack_lem sn k hs v) (map-IsSending (ack_mark sn) k (λ s. ground arith) v)

pub parse_fastack-IsSending :
    (sn ts : ℕ) (k : Kcp) → IsU32 sn → IsSending k → IsSending (parse_fastack sn ts k)
parse_fastack-IsSending sn ts k hs v =
    let d = sub32 sn k.snd_una in
    elim (Bool-cases (ltb d (length k.snd_buf))) [
      | inl near ↦
          rw (parse_fastack_lem sn ts k hs v, near)
            (map-IsSending (skip_mark k.snd_una d ts) k (λ s. ground arith) v)
      | inr far ↦ rw (parse_fastack_lem sn ts k hs v, far) v
    ]
