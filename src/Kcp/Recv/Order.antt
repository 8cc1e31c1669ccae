-- ===== src/Kcp/Recv/Order.antt =====
-- The receive buffer of `parseData` in network/kcp/kcp.go: its order, and the search for the place of
-- a new segment against an insertion from the front.
use emt.Common.{
  ℕ, suc, ◌^◌, ◌≤◌, ◌<◌, ◌≡◌, refl, sym, ap, ◌↔◌, inl, inr, Bool, true, false, ◌||◌, none, some,
  List, [], ◌∷◌, length, insert_at, insert_at-length, arith, ltb, ◌==◌, Bool-cases, if◌then◌else◌,
}
use emt.Word.{IsU32, sub32, pos, ltb_ℤ}
use emt.Kcp.State.{Segment}
use emt.Kcp.Window.{itimediff, itimediff-order}
use emt.Kcp.Recv.{repeated, after, find_slot, insert_slot}

-- How far a segment lies behind `base`, counted round the uint32.
abbrev pub off : ℕ → Segment → ℕ
off base s = sub32 s.sn base

-- Sequence numbers rise from `base + lo` on, and stay below `base + wnd`.
abbrev pub IsOrdered : ℕ → ℕ → ℕ → List Segment → Type 0
IsOrdered base wnd lo [] = Unit {0}
IsOrdered base wnd lo (s ∷ ss) =
    IsU32 s.sn × (lo ≤ off base s) × (off base s < wnd) × IsOrdered base wnd (suc (off base s)) ss

pub IsOrdered-weaken :
    (base wnd lo hi : ℕ) (ss : List Segment)
    → lo ≤ hi
    → IsOrdered base wnd hi ss
    → IsOrdered base wnd lo ss
IsOrdered-weaken base wnd lo hi [] h o = tt
IsOrdered-weaken base wnd lo hi (s ∷ ss) h (u, a, b, c) = (u, omega arith, b, c)

abbrev pub contains : ℕ → List Segment → Bool
contains sn [] = false
contains sn (s ∷ ss) = s.sn == sn || contains sn ss

-- Insertion from the front, by distance from `base`; a number that is there already stays.
abbrev pub place : ℕ → Segment → List Segment → List Segment
place base seg [] = seg ∷ []
place base seg (s ∷ ss) =
    if s.sn == seg.sn
    then s ∷ ss
    else if ltb (off base seg) (off base s)
    then seg ∷ s ∷ ss
    else s ∷ place base seg ss

-- The first segment lies behind the distance `d`.
abbrev IsAbove : ℕ → ℕ → List Segment → Type 0
IsAbove base d [] = Unit {0}
IsAbove base d (s ∷ ss) = d < off base s

-- There is a first segment, and it lies before the distance `d`.
abbrev IsBelow : ℕ → ℕ → List Segment → Type 0
IsBelow base d [] = ⊥
IsBelow base d (s ∷ ss) = off base s < d

insert_slot-after :
    (i : ℕ) (seg : Segment) (ss : List Segment)
    → insert_slot (some (after i)) seg ss ≡ (false, insert_at i seg ss)
unfolding insert_slot
insert_slot-after i seg ss = elim (Bool-cases (i == length ss)) [
  | inl e ↦
      let p : i ≡ length ss = ground arith in
      rw (e, p) (ap (λ t. (false, t)) (sym (insert_at-length seg ss)))
  | inr e ↦ rw e
]

insert_slot-none : (seg : Segment) (ss : List Segment) → insert_slot none seg ss ≡ (false, seg ∷ ss)
unfolding insert_slot
insert_slot-none seg [] = refl
insert_slot-none seg (s ∷ ss) = ground arith

sub32-injective :
    (base x y : ℕ) → IsU32 base → IsU32 x → IsU32 y → sub32 x base ≡ sub32 y base → x ≡ y
unfolding sub32
sub32-injective base x y hb hx hy e = omega arith

insert_slot-repeated :
    (seg : Segment) (ss : List Segment) → insert_slot (some repeated) seg ss ≡ (true, ss)
unfolding insert_slot
insert_slot-repeated seg ss = refl

IsBelow-suc : (base d : ℕ) (ss : List Segment) → IsBelow base d ss → IsBelow base (suc d) ss
IsBelow-suc base d [] h = h
IsBelow-suc base d (s ∷ ss) h = omega arith

-- What the search found, and what the insertion from the front does there.
data Verdict (base : ℕ) (seg : Segment) (ss : List Segment) : Type 0 where
  in_front :
      find_slot seg.sn ss ≡ none
      → place base seg ss ≡ seg ∷ ss
      → contains seg.sn ss ≡ false
      → IsAbove base (off base seg) ss
      → Verdict base seg ss
  present :
      find_slot seg.sn ss ≡ some repeated
      → place base seg ss ≡ ss
      → contains seg.sn ss ≡ true
      → IsBelow base (suc (off base seg)) ss
      → Verdict base seg ss
  behind :
      (i : ℕ)
      → find_slot seg.sn ss ≡ some (after (suc i))
      → place base seg ss ≡ insert_at (suc i) seg ss
      → contains seg.sn ss ≡ false
      → IsBelow base (off base seg) ss
      → Verdict base seg ss

-- A segment before one that lies before `seg` lies before `seg`.
below_head :
    (base wnd lo d : ℕ) (ss : List Segment)
    → IsOrdered base wnd (suc lo) ss
    → IsBelow base (suc d) ss
    → lo < d
below_head base wnd lo d [] o b = absurd b
below_head base wnd lo d (s ∷ ss) o b = omega arith

module _ (base wnd : ℕ) (seg s : Segment) (hb : IsU32 base) (hw : wnd ≤ 2 ^ 31) (hs : IsU32 seg.sn)
    (hd : off base seg < wnd) (us : IsU32 s.sn) (ds : off base s < wnd) where
  newer_iff : (ltb_ℤ (pos 0) (itimediff seg.sn s.sn) ≡ true) ↔ (off base s < off base seg)
  newer_iff = itimediff-order base seg.sn s.sn hb hs us (omega arith) (omega arith)

  -- The segment lies before `seg`, so the verdict on the tail stands.
  not_same : off base s < off base seg → (s.sn == seg.sn) ≡ false
  not_same h = ground (arith, ap (λ n. sub32 n base))

  older :
      (s.sn == seg.sn) ≡ false
      → ltb_ℤ (pos 0) (itimediff seg.sn s.sn) ≡ false
      → off base seg < off base s
  older ne h = ground (arith, newer_iff, sub32-injective base seg.sn s.sn hb hs us)

  Verdict-front :
      (ss : List Segment)
      → find_slot seg.sn ss ≡ none
      → place base seg ss ≡ seg ∷ ss
      → contains seg.sn ss ≡ false
      → Verdict base seg (s ∷ ss)
  unfolding find_slot
  Verdict-front ss e p c = elim (Bool-cases (s.sn == seg.sn)) [
    | inl same ↦ present (rw (e, same)) (rw same) (rw same) (ground arith)
    | inr ne ↦ elim (Bool-cases (ltb_ℤ (pos 0) (itimediff seg.sn s.sn))) [
      | inl newer ↦
          behind 0 (rw (e, ne, newer)) (ground (arith, newer_iff)) (rw (ne, c)) (newer_iff.0 newer)
      | inr h ↦ in_front (rw (e, ne, h)) (ground (arith, older ne h)) (rw (ne, c)) (older ne h)
    ]
  ]

  Verdict-cons :
      (ss : List Segment)
      → IsOrdered base wnd (suc (off base s)) ss
      → Verdict base seg ss
      → Verdict base seg (s ∷ ss)
  unfolding find_slot
  Verdict-cons ss o (in_front e p c a) = Verdict-front ss e p c
  Verdict-cons ss o (present e p c b) =
      let h = below_head base wnd (off base s) (off base seg) ss o b in
      present (rw e) (ground (arith, not_same h, h)) (rw (not_same h, c)) (omega (arith, h))
  Verdict-cons ss o (behind i e p c b) =
      let h =
        below_head base wnd (off base s) (off base seg) ss o
          (IsBelow-suc base (off base seg) ss b) in
      behind (suc i) (rw e) (ground (arith, not_same h, h)) (rw (not_same h, c)) h

-- The backward search gives a verdict on every ordered buffer.
find_slot-Verdict :
    (base wnd lo : ℕ) (seg : Segment) (ss : List Segment)
    → IsU32 base
    → wnd ≤ 2 ^ 31
    → IsU32 seg.sn
    → off base seg < wnd
    → IsOrdered base wnd lo ss
    → Verdict base seg ss
unfolding find_slot
find_slot-Verdict base wnd lo seg [] hb hw hs hd o = in_front refl refl refl tt
find_slot-Verdict base wnd lo seg (s ∷ ss) hb hw hs hd (us, l, ds, o) =
    Verdict-cons base wnd seg s hb hw hs hd us ds ss o
      (find_slot-Verdict base wnd (suc (off base s)) seg ss hb hw hs hd o)

-- On a buffer in order and a segment in the window, the search from the back and the insertion at its
-- index do what an insertion from the front does,
-- and the flag tells whether the number was there.
pub insert_slot-place :
    (base wnd lo : ℕ) (seg : Segment) (ss : List Segment)
    → IsU32 base
    → wnd ≤ 2 ^ 31
    → IsU32 seg.sn
    → off base seg < wnd
    → IsOrdered base wnd lo ss
    → insert_slot (find_slot seg.sn ss) seg ss ≡ (contains seg.sn ss, place base seg ss)
insert_slot-place base wnd lo seg ss hb hw hs hd o =
    go (find_slot-Verdict base wnd lo seg ss hb hw hs hd o)
  where
    go :
        Verdict base seg ss
        → insert_slot (find_slot seg.sn ss) seg ss ≡ (contains seg.sn ss, place base seg ss)
    go (in_front e p c a) = rw (e, p, c) (insert_slot-none seg ss)
    go (present e p c b) = rw (e, p, c) (insert_slot-repeated seg ss)
    go (behind i e p c b) = rw (e, p, c) (insert_slot-after (suc i) seg ss)

-- The insertion keeps the order.
pub place-IsOrdered :
    (base wnd lo : ℕ) (seg : Segment) (ss : List Segment)
    → IsU32 base
    → IsU32 seg.sn
    → lo ≤ off base seg
    → off base seg < wnd
    → IsOrdered base wnd lo ss
    → IsOrdered base wnd lo (place base seg ss)
place-IsOrdered base wnd lo seg [] hb hs hl hd o = (hs, hl, hd, tt)
place-IsOrdered base wnd lo seg (s ∷ ss) hb hs hl hd (us, l, ds, o) =
    elim (Bool-cases (s.sn == seg.sn)) [
      | inl same ↦ rw same (us, l, ds, o)
      | inr ne ↦ elim (Bool-cases (ltb (off base seg) (off base s))) [
        | inl h ↦ rw (ne, h) (hs, hl, hd, (us, ground arith, ds, o))
        | inr h ↦
            rw (ne, h)
              (
                us,
                l,
                ds,
                place-IsOrdered base wnd (suc (off base s)) seg ss hb hs
                    (ground (arith, sub32-injective base s.sn seg.sn hb us hs)) hd o,
              )
      ]
    ]
