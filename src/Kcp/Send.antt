-- ===== src/Kcp/Send.antt =====
-- `Send` of network/kcp/kcp.go: a buffer is cut into segments of at most `Mss` bytes.
pub mod Fragments
use emt.Common.{
  ℕ, zero, suc, ◌+◌, ◌-◌, ◌/◌, ◌%◌, Bool, false, ◌&&◌, ◌||◌, not, List, [], ◌∷◌, ◌++◌, length, take,
  drop, ltb, leb, ◌==◌, if◌then◌else◌,
}
use emt.Word.{ℤ, pos, negsuc, eqb_ℤ}
use emt.Kcp.State.{Segment, blank, Kcp}
use emt.Kcp.Recv.{mtu_limit}

-- Stream mode: the last queued segment is filled up to `mss` bytes from the buffer. The result is
-- the queue and what is left of the buffer.
unfoldable pub extend_last : ℕ → List ℕ → List Segment → List Segment × List ℕ
extend_last mss buffer [] = ([], buffer)
extend_last mss buffer (s ∷ []) =
    if ltb (length s.payload) mss
    then (let capacity = mss - length s.payload in
        let extend = if ltb (length buffer) capacity then length buffer else capacity in
        (record s { payload = s.payload ++ take extend buffer } ∷ [], drop extend buffer))
    else (s ∷ [], buffer)
extend_last mss buffer (s ∷ t ∷ ss) =
    let (rest, buffer') = extend_last mss buffer (t ∷ ss) in (s ∷ rest, buffer')

-- The size of the next segment.
abbrev pub piece : ℕ → List ℕ → ℕ
piece mss buffer = if ltb mss (length buffer) then mss else length buffer

-- The loop that makes the segments; the number is that of the rounds left.
unfoldable pub fragments : Bool → ℕ → ℕ → List ℕ → List Segment
fragments stream mss zero buffer = []
fragments stream mss (suc left) buffer =
    let size = piece mss buffer in
    let seg = record blank { frg = if stream then 0 else left % 256; payload = take size buffer } in
    seg ∷ fragments stream mss left (drop size buffer)

-- How many segments a buffer takes.
unfoldable pub segment_count : ℕ → ℕ → ℕ
segment_count mss len =
    let count = if leb len mss then 1 else (len + mss - 1) / mss in if count == 0 then 1 else count

-- A slice of the pool was asked for more bytes than it has.
unfoldable pub any_over : List Segment → Bool
any_over [] = false
any_over (s ∷ ss) = ltb mtu_limit (length s.payload) || any_over ss

-- Whether `Stream` is set.
abbrev pub is_stream : Kcp → Bool
is_stream k = not (eqb_ℤ k.stream (pos 0))

-- The first part of `Send`: the queue, and what is left of the buffer, once the last segment is full.
unfoldable pub send_start : List ℕ → Kcp → List Segment × List ℕ
unfolding extend_last
send_start buffer k =
    if is_stream k then extend_last k.mss buffer k.snd_queue else (k.snd_queue, buffer)

-- The rest of `Send`. With an `Mss` of 0 the division panics.
unfoldable pub send_rest : List Segment → List ℕ → Kcp → ℤ × Kcp
unfolding fragments segment_count any_over
send_rest queue buffer k =
    let no_mss = k.mss == 0 && ltb 0 (length buffer) in
    let count = segment_count k.mss (length buffer) in
    if ltb 255 count
    then (
      negsuc 1,
      record k {
        snd_queue = queue;
        panicked = k.panicked || no_mss || is_stream k && any_over queue;
      },
    )
    else let queue' = queue ++ fragments (is_stream k) k.mss count buffer in
      (pos 0, record k { snd_queue = queue'; panicked = k.panicked || no_mss || any_over queue' })

-- `Send`: 0, -1 for an empty buffer, -2 for a buffer that takes more than 255 segments.
unfoldable pub send : List ℕ → Kcp → ℤ × Kcp
unfolding send_start send_rest
send buffer k =
    if length buffer == 0
    then (negsuc 0, k)
    else let (queue, rest) = send_start buffer k in send_rest queue rest k
