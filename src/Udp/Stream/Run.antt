-- ===== src/Udp/Stream/Run.antt =====
-- The reader of a session of network/kcp/udp.go while segments arrive: calls of `Read` and of
-- `parseData` in any order.
use emt.Common.{
  ℕ, ◌≡◌, ◌<◌, ◌↔◌, ◌⊎◌, Has, true, not, ◌&&◌, length, length-append, subst, if◌then◌else◌, sym, ap,
  ◌∙◌, inl, inr, List, [], ◌∷◌, ◌++◌, append_assoc, append-nil, arith, ltb, Bool-cases,
}
use emt.Word.{IsU32, add32, add32_add, add32-zero}
use emt.Kcp.State.{Segment}
use emt.Kcp.Recv.{parse_data}
use emt.Kcp.Recv.Order.{off, contains, place}
use emt.Kcp.Recv.Members.{Has-append, place-contains, place-Has}
use emt.Kcp.Recv.Ready.{IsConsecutive, IsReceiving}
use emt.Kcp.Recv.Deliver.{parse_data_in_window, parse_data_outside, parse_data-IsReceiving}
use emt.Kcp.Send.Fragments.{payloads, payloads-append}
use emt.Kcp.Flush.Window.{IsConsecutive-append}
use emt.Udp.Session.{Session}
use emt.Udp.Stream.{ReadResult, got, waits, read}
use emt.Udp.Stream.Reading.{unread, IsRead, read-IsRead}

pub data Event : Type 0 where
  asks : ℕ → Event
  arrives : Segment → Event

abbrev pub bytes_of : ReadResult → List ℕ
bytes_of (got n bytes) = bytes
bytes_of waits = []

-- What the reader gets at an event, and the session behind it.
unfoldable pub step : Event → Session → List ℕ × Session
step (asks size) s = let (r, s') = read size s in (bytes_of r, s')
step (arrives seg) s = ([], record s { kcp = (parse_data seg s.kcp).1 })

-- Everything that the reader gets.
unfoldable pub run : List Event → Session → List ℕ × Session
unfolding step
run [] s = ([], s)
run (e ∷ es) s = let (first, s') = step e s in let (rest, s'') = run es s' in (first ++ rest, s'')

-- Numbers have 32 bits.
abbrev pub IsEvent : Event → Type 0
IsEvent (asks size) = Unit {0}
IsEvent (arrives seg) = IsU32 seg.sn

-- The segments that count: in the window when they come, and with a number that the receive buffer
-- does not have.
abbrev pub accepted_at : Event → Session → List Segment
accepted_at (asks size) s = []
accepted_at (arrives seg) s =
    if ltb (off s.kcp.rcv_nxt seg) s.kcp.rcv_wnd && not (contains seg.sn s.kcp.rcv_buf)
    then seg ∷ []
    else []

unfoldable pub accepted : List Event → Session → List Segment
accepted [] s = []
accepted (e ∷ es) s = accepted_at e s ++ accepted es (step e s).1

-- The specification, a byte queue: what went out, and then what is in it, is what was in it and then
-- the bytes of the segments with the next numbers. These, and those that still wait in the receive
-- buffer, are those that waited before and those that came.
pub record IsQueue (came : List Segment) (s : Session) (out : List ℕ) (s' : Session) : Type 0 where
  pub moved : List Segment
  pub bytes : out ++ unread s' ≡ unread s ++ payloads moved
  pub numbers : IsConsecutive s.kcp.rcv_nxt moved
  pub nxt : s'.kcp.rcv_nxt ≡ add32 s.kcp.rcv_nxt (length moved)
  pub members : (x : Segment) → Has x (moved ++ s'.kcp.rcv_buf) ↔ (Has x s.kcp.rcv_buf ⊎ Has x came)

members-append :
    (x : Segment) (m1 m2 bs bt bu as1 as2 : List Segment)
    → Has x (m1 ++ bt) ↔ (Has x bs ⊎ Has x as1)
    → Has x (m2 ++ bu) ↔ (Has x bt ⊎ Has x as2)
    → Has x ((m1 ++ m2) ++ bu) ↔ (Has x bs ⊎ Has x (as1 ++ as2))
members-append x m1 m2 bs bt bu as1 as2 (to1, from1) (to2, from2) =
    let (split1, join1) = Has-append x m1 bt in
    let (split, join) = Has-append x m1 (m2 ++ bu) in
    let (split_as, join_as) = Has-append x as1 as2 in
    let first : Has x bs ⊎ Has x as1 → Has x bs ⊎ Has x (as1 ++ as2) =
      λ h. elim h [ inl b ↦ inl b | inr c ↦ inr (join_as (inl c)) ] in
    let place1 : Has x bs ⊎ Has x as1 → Has x (m1 ++ (m2 ++ bu)) =
      λ h. elim (split1 (from1 h)) [ inl m ↦ join (inl m) | inr b ↦ join (inr (from2 (inl b))) ] in
    (
      λ h. elim (split (subst (Has x) (append_assoc m1 m2 bu) h)) [
        | inl m ↦ first (to1 (join1 (inl m)))
        | inr r ↦ elim (to2 r) [
          | inl b ↦ first (to1 (join1 (inr b)))
          | inr c ↦ inr (join_as (inr c))
        ]
      ],
      λ h. subst (Has x) (sym (append_assoc m1 m2 bu)) (elim h [
        | inl b ↦ place1 (inl b)
        | inr c ↦ elim (split_as c) [ inl c ↦ place1 (inr c) | inr c ↦ join (inr (from2 (inr c))) ]
      ]),
    )

IsQueue-append :
    (as1 as2 : List Segment) (s t u : Session) (out1 out2 : List ℕ)
    → IsU32 s.kcp.rcv_nxt
    → IsQueue as1 s out1 t
    → IsQueue as2 t out2 u
    → IsQueue (as1 ++ as2) s (out1 ++ out2) u
IsQueue-append as1 as2 s t u out1 out2 hn q1 q2 = record {
  moved = q1.moved ++ q2.moved;
  bytes =
      append_assoc out1 out2 (unread u)
      ∙ ap (λ r. out1 ++ r) q2.bytes
      ∙ sym (append_assoc out1 (unread t) (payloads q2.moved))
      ∙ ap (λ r. r ++ payloads q2.moved) q1.bytes
      ∙ append_assoc (unread s) (payloads q1.moved) (payloads q2.moved)
      ∙ ap (λ r. unread s ++ r) (sym (payloads-append q1.moved q2.moved));
  numbers =
      IsConsecutive-append s.kcp.rcv_nxt q1.moved q2.moved hn q1.numbers
        (subst (λ n. IsConsecutive n q2.moved) q1.nxt q2.numbers);
  nxt =
      q2.nxt
      ∙ ap (λ n. add32 n (length q2.moved)) q1.nxt
      ∙ add32_add s.kcp.rcv_nxt (length q1.moved) (length q2.moved)
      ∙ ap (add32 s.kcp.rcv_nxt) (sym (length-append q1.moved q2.moved));
  members = λ x.
      members-append x q1.moved q2.moved s.kcp.rcv_buf t.kcp.rcv_buf u.kcp.rcv_buf as1 as2
        (q1.members x) (q2.members x);
}

-- What the segments `came` do, of which those that count are given.
abbrev pub IsStep : List Segment → Session → List ℕ × Session → Type 0
IsStep came s (out, s') = IsQueue came s out s' × IsReceiving s'.kcp

none_came : (x : Segment) (bs : List Segment) → Has x bs ↔ (Has x bs ⊎ Has x [])
none_came x bs = (inl, λ h. elim h [ inl b ↦ b | inr c ↦ absurd c ])

nothing : (s : Session) → IsReceiving s.kcp → IsStep [] s ([], s)
nothing s v = (
  record {
    moved = [];
    bytes = sym (append-nil _);
    numbers = tt;
    nxt = sym (add32-zero s.kcp.rcv_nxt v.nxt);
    members = λ x. none_came x s.kcp.rcv_buf;
  },
  v,
)

read-IsStep :
    (size : ℕ) (s : Session) (r : ReadResult × Session)
    → IsReceiving s.kcp
    → IsRead size s r
    → IsStep [] s (bytes_of r.0, r.1)
read-IsStep size s (got n bytes, s') v p = (
  record {
    moved = p.moved;
    bytes = p.stream;
    numbers = p.numbers;
    nxt = p.nxt;
    members = λ x.
        subst (λ l. Has x l ↔ (Has x s.kcp.rcv_buf ⊎ Has x [])) (sym p.front)
          (none_came x s.kcp.rcv_buf);
  },
  p.receiving,
)
read-IsStep size s (waits, s') v p = rw p (nothing s v)

-- What stands in the buffer once the segment was put in its place.
placed-Has :
    (seg : Segment) (s : Session)
    → IsReceiving s.kcp
    → IsU32 seg.sn
    → off s.kcp.rcv_nxt seg < s.kcp.rcv_wnd
    → (x : Segment)
    → Has x (place s.kcp.rcv_nxt seg s.kcp.rcv_buf)
      ↔ (Has x s.kcp.rcv_buf ⊎ Has x (accepted_at (arrives seg) s))
placed-Has seg s v h l x =
    let inside : ltb (off s.kcp.rcv_nxt seg) s.kcp.rcv_wnd ≡ true = ground arith in
    elim (Bool-cases (contains seg.sn s.kcp.rcv_buf)) [
      | inl known ↦
          rw
            (
              inside,
              known,
              place-contains s.kcp.rcv_nxt s.kcp.rcv_wnd seg s.kcp.rcv_buf v.nxt
                  (omega (arith, v.wnd)) h l v.buf known,
            )
            (none_came x s.kcp.rcv_buf)
      | inr new ↦
          let (to, from) = place-Has s.kcp.rcv_nxt seg x s.kcp.rcv_buf new in
          rw (inside, new)
            (
              λ k. elim (to k) [ inl e ↦ inr (inl e) | inr b ↦ inl b ],
              λ k. elim k [
                | inl b ↦ from (inr b)
                | inr c ↦ elim c [ inl e ↦ from (inl e) | inr n ↦ absurd n ]
              ],
            )
    ]

parse_data-IsStep :
    (seg : Segment) (s : Session)
    → IsReceiving s.kcp
    → IsU32 seg.sn
    → IsStep (accepted_at (arrives seg) s) s ([], record s { kcp = (parse_data seg s.kcp).1 })
parse_data-IsStep seg s v h = elim (Bool-cases (ltb (off s.kcp.rcv_nxt seg) s.kcp.rcv_wnd)) [
  | inl window ↦
      let l : off s.kcp.rcv_nxt seg < s.kcp.rcv_wnd = ground arith in
      let (_, moved, d) = parse_data_in_window s.kcp seg v h l in
      (
        record {
          moved = moved;
          bytes =
              ap (λ q. s.bufptr ++ payloads q) d.queue
              ∙ ap (λ q. s.bufptr ++ q) (payloads-append s.kcp.rcv_queue moved)
              ∙ sym (append_assoc s.bufptr _ _);
          numbers = d.numbers;
          nxt = d.nxt;
          members = λ x.
              subst (λ b. Has x b ↔ (Has x s.kcp.rcv_buf ⊎ Has x (accepted_at (arrives seg) s)))
                (sym d.buf) (placed-Has seg s v h l x);
        },
        parse_data-IsReceiving s.kcp seg v h,
      )
  | inr out ↦ rw (out, parse_data_outside s.kcp seg v h (ground arith)) (nothing s v)
]

step-IsStep :
    (e : Event) (s : Session)
    → IsReceiving s.kcp
    → IsEvent e
    → IsStep (accepted_at e s) s (step e s)
unfolding step
step-IsStep (asks size) s v h = read-IsStep size s (read size s) v (read-IsRead size s v)
step-IsStep (arrives seg) s v h = parse_data-IsStep seg s v h

-- All events have 32-bit numbers.
abbrev pub AreEvents : List Event → Type 0
AreEvents [] = Unit {0}
AreEvents (e ∷ es) = IsEvent e × AreEvents es

-- From a session with the receive buffer in order, through any calls of `Read` with buffers of any
-- sizes, and any segments that arrive in between, in any order, again or out of the window: what the
-- reader gets, and behind it what the session then holds for the reader, is what the session held
-- before, and behind it the payloads of segments whose numbers run from `RcvNxt` on without a gap.
-- These and the segments in the receive buffer then are exactly those that were in it before and those
-- that came with a new number in the window. The receive buffer stays in order.
pub run-IsStep :
    (es : List Event) (s : Session)
    → IsReceiving s.kcp
    → AreEvents es
    → IsStep (accepted es s) s (run es s)
unfolding run accepted
run-IsStep [] s v h = nothing s v
run-IsStep (e ∷ es) s v (h, hs) =
    let (q, w) = step-IsStep e s v h in
    let (q', w') = run-IsStep es (step e s).1 w hs in
    (
      IsQueue-append (accepted_at e s) (accepted es (step e s).1) s (step e s).1
          (run es (step e s).1).1 (step e s).0 (run es (step e s).1).0 v.nxt q q',
      w',
    )
