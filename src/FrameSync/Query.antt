-- ===== src/FrameSync/Query.antt =====
-- `HistoryFrames` of util/framesync.
use emt.Common.{
  ℕ, zero, suc, ◌-◌, ◌≤◌, ◌<◌, ◌≡◌, refl, ap, Bool, ◌||◌, List, [], ◌∷◌, ◌++◌, take, drop, length,
  length-take, length-drop, arith, ltb, ◌==◌,
}
use emt.FrameSync.{Frame, FrameSync, history_frames}

-- A list without its last element, from the place `m` on.
middle :
    (m : ℕ) (x : Frame) (xs : List Frame)
    → m < suc (length xs)
    → (newest : Frame) × (take m (x ∷ xs) ++ (drop m (take (length xs) (x ∷ xs)) ++ (newest ∷ []))
        ≡ x ∷ xs)
middle zero x [] h = (x, refl)
middle zero x (y ∷ ys) h =
    let (newest, e) = middle zero y ys (omega arith) in (newest, ap (λ t. x ∷ t) e)
middle (suc m) x [] h = absurd (omega (arith, h))
middle (suc m) x (y ∷ ys) h =
    let (newest, e) = middle m y ys (omega (arith, h)) in (newest, ap (λ t. x ∷ t) e)

history_frames-middle :
    (n : ℕ) (s : FrameSync)
    → 0 < n
    → n ≤ length s.history
    → history_frames n s ≡ drop (n - 1) (take (length s.history - 1) s.history)
unfolding history_frames
history_frames-middle n s h0 h =
    let asked : (n == 0 || (length s.history == 0 || ltb (length s.history) n)) ≡ Bool.false =
      ground arith in
    rw asked refl

-- For a frame number that the history has reached, `HistoryFrames` gives the frames from that number
-- on but the newest one.
pub history_frames_lem :
    (n : ℕ) (s : FrameSync)
    → 0 < n
    → n ≤ length s.history
    → (newest : Frame) × (take (n - 1) s.history ++ (history_frames n s ++ (newest ∷ []))
        ≡ s.history)
      × (length (history_frames n s) ≡ length s.history - n)
history_frames_lem n s h0 h = rw (history_frames-middle n s h0 h) (split s.history h)
  where
    split :
        (hs : List Frame)
        → n ≤ length hs
        → (newest : Frame) × (take (n - 1) hs
              ++ (drop (n - 1) (take (length hs - 1) hs) ++ (newest ∷ []))
            ≡ hs)
          × (length (drop (n - 1) (take (length hs - 1) hs)) ≡ length hs - n)
    split [] h = absurd (omega (arith, h0, h))
    split (x ∷ xs) h =
        let (newest, e) = middle (n - 1) x xs (omega (arith, h0, h)) in
        let last : suc (length xs) - 1 ≡ length xs = omega arith in
        rw last (
          newest,
          e,
          omega (
            arith,
            h0,
            h,
            length-drop {0} (n - 1) (take (length xs) (x ∷ xs)),
            length-take {0} (length xs) (x ∷ xs),
          ),
        )
