-- ===== src/Tcp/Parser/Limits.antt =====
-- The limits of `msgParser` of network/tcp/msg.go.
use emt.Common.{
  ℕ, ◌+◌, ◌≤◌, ◌≡◌, refl, ◌⊎◌, inl, inr, List, length, take, drop, length-take, length-drop, arith,
}
use emt.Tcp.Parser.{MsgParser, new_msg_parser, max_len, set_msg_len, get_len, read_body, read, ok}

-- The length takes one, two or four bytes, and the limits fit in them.
pub record IsValid (p : MsgParser) : Type 0 where
  pub len : (p.len_msg_len ≡ 1) ⊎ (p.len_msg_len ≡ 2) ⊎ (p.len_msg_len ≡ 4)
  pub min : p.min_msg_len ≤ max_len p.len_msg_len
  pub max : p.max_msg_len ≤ max_len p.len_msg_len

pub new_msg_parser-IsValid : IsValid new_msg_parser
unfolding new_msg_parser
new_msg_parser-IsValid = record { len = inr (inl refl); min = omega arith; max = omega arith }

-- `SetMsgLen` keeps the limits within what the bytes of the length can hold, for any arguments.
pub set_msg_len-IsValid :
    (len_msg_len min_msg_len max_msg_len : ℕ) (p : MsgParser)
    → IsValid p
    → IsValid (set_msg_len len_msg_len min_msg_len max_msg_len p)
unfolding set_msg_len
set_msg_len-IsValid len_msg_len min_msg_len max_msg_len p v = ground (arith, v.len)

read_body_bounds :
    (p : MsgParser) (n : ℕ) (input message rest : List ℕ)
    → read_body p n input ≡ (ok message, rest)
    → (p.min_msg_len ≤ length message)
      × (length message ≤ p.max_msg_len)
      × (length rest + length message ≡ length input)
unfolding read_body
read_body_bounds p n input message rest e =
    ground (arith, e, length-take {0} n input, length-drop {0} n input)

-- `Read` gives no message outside the limits, and takes from the stream only the length and the
-- message.
pub read_bounds :
    (p : MsgParser) (input message rest : List ℕ)
    → read p input ≡ (ok message, rest)
    → (p.min_msg_len ≤ length message)
      × (length message ≤ p.max_msg_len)
      × (length rest + length message + p.len_msg_len ≡ length input)
unfolding read
read_bounds p input message rest e = ground (
  arith,
  e,
  length-drop {0} p.len_msg_len input,
  read_body_bounds p (get_len p (take p.len_msg_len input)) (drop p.len_msg_len input) message rest,
)
