-- ===== src/Fec/Tune.antt =====
-- network/kcp/aototune.go: the guess of the sender's shard counts from the packets that come in.
use emt.Common.{
  ℕ, ◌+◌, ◌%◌, Bool, ◌&&◌, not, Option, none, some, List, [], ◌∷◌, drop, set, ◌==◌, eqb,
  if◌then◌else◌,
}
use emt.Word.{ℤ, pos, negsuc, add32, sub_ℕ}

-- `maxAutoTuneSamples`.
abbrev pub samples : ℕ
samples = 258

-- `pulse`.
pub record Pulse : Type 0 where
  pub bit : Bool
  pub seq : ℕ

-- `Sample`, on the array of the pulses.
unfoldable pub tune_sample : Bool → ℕ → List Pulse → List Pulse
tune_sample bit seq pulses = set pulses (seq % samples) (record { bit = bit; seq = seq })

-- The first loop of `FindPeriod`, behind `last`, at the index `idx`: 0 if there is no edge.
unfoldable pub left_edge : Bool → Pulse → ℕ → List Pulse → ℕ
left_edge bit last idx [] = 0
left_edge bit last idx (p ∷ ps) =
    let rest = left_edge bit p (idx + 1) ps in
    if not (eqb last.bit bit) && eqb p.bit bit && add32 last.seq 1 == p.seq then idx else rest

-- The second loop; `none` is its return of -1.
unfoldable pub right_edge : Bool → Pulse → ℕ → List Pulse → Option ℕ
right_edge bit last idx [] = some 0
right_edge bit last idx (p ∷ ps) =
    let rest = right_edge bit p (idx + 1) ps in
    if add32 last.seq 1 == p.seq
    then (if eqb last.bit bit && not (eqb p.bit bit) then some idx else rest)
    else none

-- The second loop, from the left edge on, and the difference of the edges.
unfoldable pub period_from : Bool → ℕ → List Pulse → ℤ
unfolding right_edge
period_from bit left [] = pos 0
period_from bit left (p ∷ ps) = elim (right_edge bit p (left + 1) ps) [
  | none ↦ negsuc 0
  | some right ↦ sub_ℕ right left
]

-- `FindPeriod`. The array is never empty.
unfoldable pub find_period : Bool → List Pulse → ℤ
unfolding left_edge period_from
find_period bit [] = pos 0
find_period bit (p ∷ ps) =
    let left = left_edge bit p 1 ps in period_from bit left (drop left (p ∷ ps))
