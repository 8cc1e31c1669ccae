-- ===== src/Tcp/Parser.antt =====
-- `msgParser` of network/tcp/msg.go: a length in one, two or four bytes, and the message.
pub mod RoundTrip
pub mod Limits
use emt.Common.{
  ℕ, ◌+◌, ◌-◌, ◌*◌, ◌/◌, ◌%◌, Bool, true, false, ◌||◌, Option, none, some, List, [], ◌∷◌, ◌++◌,
  length, take, drop, replicate, ltb, ◌==◌, if◌then◌else◌,
}
use emt.Word.{u32_mod}

-- `msgParser`.
pub record MsgParser : Type 0 where
  pub len_msg_len : ℕ
  pub min_msg_len : ℕ
  pub max_msg_len : ℕ
  pub little_endian : Bool

-- `newMsgParser`.
unfoldable pub new_msg_parser : MsgParser
new_msg_parser = record {
  len_msg_len = 2;
  min_msg_len = 1;
  max_msg_len = 4096;
  little_endian = false;
}

-- `math.MaxUint8`, `math.MaxUint16` or `math.MaxUint32`, by the bytes of the length.
abbrev pub max_len : ℕ → ℕ
max_len n = if n == 1 then 255 else if n == 2 then 65535 else if n == 4 then 4294967295 else 0

-- `SetMsgLen`.
unfoldable pub set_msg_len : ℕ → ℕ → ℕ → MsgParser → MsgParser
set_msg_len len_msg_len min_msg_len max_msg_len p =
    let n =
      if len_msg_len == 1 || (len_msg_len == 2 || len_msg_len == 4)
      then len_msg_len
      else p.len_msg_len in
    let lo = if min_msg_len == 0 then p.min_msg_len else min_msg_len in
    let hi = if max_msg_len == 0 then p.max_msg_len else max_msg_len in
    record p {
      len_msg_len = n;
      min_msg_len = if ltb (max_len n) lo then max_len n else lo;
      max_msg_len = if ltb (max_len n) hi then max_len n else hi;
    }

-- `SetByteOrder`.
unfoldable pub set_byte_order : Bool → MsgParser → MsgParser
set_byte_order little_endian p = record p { little_endian = little_endian }

-- The length as `Write` puts it in front of a message.
unfoldable pub put_len : MsgParser → ℕ → List ℕ
put_len p n =
    let b0 = n % 256 in
    let b1 = n / 256 % 256 in
    let b2 = n / 65536 % 256 in
    let b3 = n / 16777216 % 256 in
    if p.len_msg_len == 1
    then b0 ∷ []
    else if p.len_msg_len == 2
    then (if p.little_endian then b0 ∷ b1 ∷ [] else b1 ∷ b0 ∷ [])
    else if p.len_msg_len == 4
    then (if p.little_endian then b0 ∷ b1 ∷ b2 ∷ b3 ∷ [] else b3 ∷ b2 ∷ b1 ∷ b0 ∷ [])
    else []

-- A number from its bytes, the least first.
abbrev pub from_little : List ℕ → ℕ
from_little (b0 ∷ []) = b0
from_little (b0 ∷ b1 ∷ []) = b0 + 256 * b1
from_little (b0 ∷ b1 ∷ b2 ∷ b3 ∷ []) = b0 + 256 * b1 + 65536 * b2 + 16777216 * b3
from_little _ = 0

abbrev pub from_big : List ℕ → ℕ
from_big (b0 ∷ []) = b0
from_big (b0 ∷ b1 ∷ []) = 256 * b0 + b1
from_big (b0 ∷ b1 ∷ b2 ∷ b3 ∷ []) = 16777216 * b0 + 65536 * b1 + 256 * b2 + b3
from_big _ = 0

-- The length as `Read` takes it.
unfoldable pub get_len : MsgParser → List ℕ → ℕ
get_len p bytes = if p.little_endian then from_little bytes else from_big bytes

-- The errors of `Read` and `Write`; `io` is one of the connection.
pub data MsgError : Type 0 where
  too_long too_short io : MsgError

pub data Result : Type 0 where
  ok : List ℕ → Result
  err : MsgError → Result

-- `io.ReadFull` on what the peer sends: `none` if it ends too early, and then nothing is left.
abbrev pub read_full : ℕ → List ℕ → Option (List ℕ × List ℕ)
read_full n input = if ltb (length input) n then none else some (take n input, drop n input)

-- The second part of `Read`, behind the length.
unfoldable pub read_body : MsgParser → ℕ → List ℕ → Result × List ℕ
read_body p n rest =
    if ltb p.max_msg_len n
    then (err too_long, rest)
    else if ltb n p.min_msg_len
    then (err too_short, rest)
    else elim (read_full n rest) [
      | none ↦ (err io, [])
      | some (message, rest') ↦ (ok message, rest')
    ]

abbrev pub behind_len : MsgParser → Option (List ℕ × List ℕ) → Result × List ℕ
behind_len p none = (err io, [])
behind_len p (some (bytes, rest)) = read_body p (get_len p bytes) rest

-- `Read`: the message or an error, and what is left of the stream.
unfoldable pub read : MsgParser → List ℕ → Result × List ℕ
unfolding get_len read_body
read p input = behind_len p (read_full p.len_msg_len input)

-- `msgLen` of `Write`.
unfoldable pub total_len : List (List ℕ) → ℕ
total_len [] = 0
total_len (a ∷ args) = (length a + total_len args) % u32_mod

-- The arguments copied one after the other into a buffer of `size` bytes, from `l` on; `none` where
-- `l` has passed its end, and Go panics.
unfoldable pub copy_args : ℕ → ℕ → List (List ℕ) → Option (List ℕ)
copy_args size l [] = some (replicate (size - l) 0)
copy_args size l (a ∷ args) =
    if ltb size l then none else elim (copy_args size (l + length a) args) [
      | none ↦ none
      | some bytes ↦ some (take (size - l) a ++ bytes)
    ]

abbrev pub with_len : MsgParser → ℕ → Option (List ℕ) → Option Result
with_len p n none = none
with_len p n (some bytes) = some (ok (put_len p n ++ bytes))

-- What `Write` hands to the connection, or its error; `none` where Go panics.
unfoldable pub write : MsgParser → List (List ℕ) → Option Result
unfolding total_len copy_args put_len
write p args =
    let n = total_len args in
    if ltb p.max_msg_len n
    then some (err too_long)
    else if ltb n p.min_msg_len
    then some (err too_short)
    else with_len p n (copy_args ((p.len_msg_len + n) % u32_mod) p.len_msg_len args)
