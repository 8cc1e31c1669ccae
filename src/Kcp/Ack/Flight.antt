-- ===== src/Kcp/Ack/Flight.antt =====
-- The segments in flight of network/kcp/kcp.go: what `parseUna`, `shrinkBuf`, `parseAck` and
-- `parseFastack` do to `SndBuf`, whose numbers run from `SndUna` to `SndNxt`.
use emt.Common.{
  ℕ, zero, suc, ◌+◌, ◌^◌, ◌≤◌, ◌<◌, ◌≡◌, refl, sym, ap, ◌∙◌, inl, inr, List, [], ◌∷◌, length,
  length-drop, drop, min, arith, ltb, Bool-cases, if◌then◌else◌,
}
use emt.Word.{IsU32, sub32, add32, add32-IsU32, add32-zero, add32_add, add32-suc, pos, ltb_ℤ}
use emt.Kcp.State.{Segment, Kcp}
use emt.Kcp.Window.{itimediff, zero-lt}
use emt.Kcp.Recv.Ready.{IsConsecutive}
use emt.Kcp.Ack.{first_sn, shrink_buf, count_before, parse_una}

-- The numbers in flight are those from `SndUna` to `SndNxt`, less than half of the range.
pub record IsSending (k : Kcp) : Type 0 where
  pub una : IsU32 k.snd_una
  pub numbers : IsConsecutive k.snd_una k.snd_buf
  pub nxt : k.snd_nxt ≡ add32 k.snd_una (length k.snd_buf)
  pub few : length k.snd_buf < 2 ^ 31

-- How many of `n` segments from `base` on lie before `una`.
abbrev pub before : ℕ → ℕ → ℕ → ℕ
before base una n = if ltb (sub32 una base) (2 ^ 31) then min (sub32 una base) n else 0

newer_test :
    (base una i : ℕ)
    → IsU32 base
    → IsU32 una
    → i < 2 ^ 31
    → sub32 una base < 2 ^ 31
    → ltb_ℤ (pos 0) (itimediff una (add32 base i)) ≡ ltb i (sub32 una base)
newer_test base una i hb hu hi hd =
    rw (zero-lt una (add32 base i)) (unfold add32 sub32 in ground arith)

-- The loop of `parseUna` on consecutive numbers, from the distance `i` on.
count_before-consecutive :
    (base una i : ℕ) (ss : List Segment)
    → IsU32 base
    → IsU32 una
    → sub32 una base < 2 ^ 31
    → i + length ss < 2 ^ 31
    → IsConsecutive (add32 base i) ss
    → i + count_before una ss
      ≡ (if ltb (sub32 una base) i then i else min (sub32 una base) (i + length ss))
unfolding count_before
count_before-consecutive base una i [] hb hu hd hl c = ground arith
count_before-consecutive base una i (s ∷ ss) hb hu hd hl (e, c) =
    let c' : IsConsecutive (add32 base (i + 1)) ss = rw (← add32_add base i 1) c in
    let ih = count_before-consecutive base una (i + 1) ss hb hu hd (omega arith) c' in
    rw (e, newer_test base una i hb hu (omega arith) hd) (ground (arith, ih))

-- An acknowledgement of what lies before the window stops the loop at once.
count_before-old :
    (base una : ℕ) (ss : List Segment)
    → 2 ^ 31 ≤ sub32 una base
    → IsConsecutive base ss
    → count_before una ss ≡ 0
unfolding count_before
count_before-old base una [] h c = refl
count_before-old base una (s ∷ ss) h (e, c) = rw (e, zero-lt una base) (ground arith)

count_before-before :
    (base una : ℕ) (ss : List Segment)
    → IsU32 base
    → IsU32 una
    → length ss < 2 ^ 31
    → IsConsecutive base ss
    → count_before una ss ≡ before base una (length ss)
count_before-before base una ss hb hu hl c = elim (Bool-cases (ltb (sub32 una base) (2 ^ 31))) [
  | inl near ↦
      let c' : IsConsecutive (add32 base 0) ss = rw (add32-zero base hb) c in
      ground (arith, count_before-consecutive base una 0 ss hb hu (ground arith) (omega arith) c')
  | inr far ↦ rw far (count_before-old base una ss (ground arith) c)
]

pub IsConsecutive-drop :
    (base n : ℕ) (ss : List Segment)
    → IsU32 base
    → IsConsecutive base ss
    → IsConsecutive (add32 base n) (drop n ss)
IsConsecutive-drop base zero ss hb c = rw (add32-zero base hb) c
IsConsecutive-drop base (suc n) [] hb c = tt
IsConsecutive-drop base (suc n) (s ∷ ss) hb (e, c) =
    rw (← add32-suc base n) (IsConsecutive-drop (add32 base 1) n ss (add32-IsU32 base 1) c)

first_sn-consecutive :
    (base nxt : ℕ) (ss : List Segment)
    → IsConsecutive base ss
    → nxt ≡ add32 base (length ss)
    → IsU32 base
    → first_sn ss nxt ≡ base
first_sn-consecutive base nxt [] c e hb = e ∙ add32-zero base hb
first_sn-consecutive base nxt (s ∷ ss) (h, c) e hb = h

-- `parseUna` and `shrinkBuf`, with the numbers in flight in their places: an acknowledgement of everything before `una` takes that many segments
-- off the front, none if `una` is old and all at most, and `SndUna` moves up by as many.
pub acknowledge_lem :
    (una : ℕ) (k : Kcp)
    → IsU32 una
    → IsSending k
    → let n = before k.snd_una una (length k.snd_buf) in
      let (count, k') = parse_una una k in
      (count ≡ n)
      × ((shrink_buf k').snd_buf ≡ drop n k.snd_buf)
      × ((shrink_buf k').snd_una ≡ add32 k.snd_una n)
      × IsSending (shrink_buf k')
unfolding parse_una shrink_buf
acknowledge_lem una k hu v =
    let n = before k.snd_una una (length k.snd_buf) in
    let e = count_before-before k.snd_una una k.snd_buf v.una hu v.few v.numbers in
    let c = IsConsecutive-drop k.snd_una n k.snd_buf v.una v.numbers in
    let len : n + length (drop n k.snd_buf) ≡ length k.snd_buf =
      ground (arith, length-drop {0} n k.snd_buf) in
    let nxt : k.snd_nxt ≡ add32 (add32 k.snd_una n) (length (drop n k.snd_buf)) =
      v.nxt ∙ sym (add32_add k.snd_una n _ ∙ ap (add32 k.snd_una) len) in
    let first =
      first_sn-consecutive (add32 k.snd_una n) k.snd_nxt (drop n k.snd_buf) c nxt
        (add32-IsU32 k.snd_una n) in
    rw (e, first)
      (
        refl,
        refl,
        refl,
        record { una = add32-IsU32 k.snd_una n; numbers = c; nxt = nxt; few = omega (arith, len) },
      )
