-- ===== src/Tcp/Tests.antt =====
-- network/tcp/msg.go on short messages.
use emt.Common.{ℕ, ◌≡◌, refl, inr, true, List, [], ◌∷◌, ◌++◌, some, arith}
use emt.Tcp.Parser.{MsgParser, read, write, ok, err, too_short, io}
use emt.Tcp.Parser.Limits.{IsValid}
use emt.Tcp.Parser.RoundTrip.{read-write}

-- Lengths in four bytes, the least first, of messages of 2 to 9 bytes.
abbrev parser : MsgParser
parser = record { len_msg_len = 4; min_msg_len = 2; max_msg_len = 9; little_endian = true }

parser-IsValid : IsValid parser
parser-IsValid = record { len = inr (inr refl); min = omega arith; max = omega arith }

abbrev two_parts : List (List ℕ)
two_parts = (7 ∷ 8 ∷ []) ∷ (9 ∷ []) ∷ []

abbrev frame_bytes : List ℕ
frame_bytes = 3 ∷ 0 ∷ 0 ∷ 0 ∷ 7 ∷ 8 ∷ 9 ∷ []

write-parts : write parser two_parts ≡ some (ok frame_bytes)
unfolding write
write-parts = refl

read-frame : read parser (frame_bytes ++ (1 ∷ [])) ≡ (ok (7 ∷ 8 ∷ 9 ∷ []), 1 ∷ [])
unfolding read
read-frame = refl

read_errors :
    (read parser (1 ∷ 0 ∷ 0 ∷ 0 ∷ 5 ∷ []) ≡ (err too_short, 5 ∷ []))
    × (read parser (3 ∷ 0 ∷ 0 ∷ 0 ∷ 5 ∷ []) ≡ (err io, []))
unfolding read
read_errors = (refl, refl)

read-write_example :
    (frame : List ℕ) × (write parser two_parts ≡ some (ok frame))
    × (read parser (frame ++ (1 ∷ [])) ≡ (ok (7 ∷ 8 ∷ 9 ∷ []), 1 ∷ []))
read-write_example =
    read-write parser two_parts (1 ∷ []) parser-IsValid (omega arith) (omega arith) (omega arith)
