-- ===== src/Tcp/Parser/RoundTrip.antt =====
-- What `Write` of network/tcp/msg.go frames, `Read` takes apart.
use emt.Common.{
  ℕ, ◌+◌, ◌-◌, ◌%◌, ◌≤◌, ◌<◌, ◌≡◌, refl, ap, sym, ◌∙◌, false, List, [], ◌∷◌, ◌++◌, append_assoc,
  length, length-append, take-all, length-drop_append, take-length_append, some, arith, ltb,
}
use emt.Word.{u32_mod}
use emt.Tcp.Parser.{
  MsgParser, max_len, put_len, get_len, read_full, read_body, read, total_len, copy_args, write, ok,
}
use emt.Tcp.Parser.Limits.{IsValid}

abbrev pub concat : List (List ℕ) → List ℕ
concat [] = []
concat (a ∷ args) = a ++ concat args

total_len-concat :
    (args : List (List ℕ)) → length (concat args) < u32_mod → total_len args ≡ length (concat args)
unfolding total_len
total_len-concat [] h = refl
total_len-concat (a ∷ args) h =
    let len = length-append a (concat args) in
    let ih = total_len-concat args (omega (arith, h, len)) in omega (arith, h, len, ih)

-- In a buffer that holds them all the arguments stand one behind the other.
copy_args-concat :
    (size l : ℕ) (args : List (List ℕ))
    → l + length (concat args) ≡ size
    → copy_args size l args ≡ some (concat args)
unfolding copy_args
copy_args-concat size l [] h = let none_left : size - l ≡ 0 = omega (arith, h) in rw none_left refl
copy_args-concat size l (a ∷ args) h =
    let len = length-append a (concat args) in
    let inside : ltb size l ≡ false = ground (arith, h) in
    let ih = copy_args-concat size (l + length a) args (omega (arith, h, len)) in
    rw (inside, ih)
      (ap (λ t. some (t ++ concat args)) (take-all (size - l) a (omega (arith, h, len))))

-- The bytes of a length that fits are as many as they should be, and are read as that length.
put_len-get_len :
    (p : MsgParser) (n : ℕ)
    → IsValid p
    → n ≤ max_len p.len_msg_len
    → (length (put_len p n) ≡ p.len_msg_len) × (get_len p (put_len p n) ≡ n)
unfolding put_len get_len
put_len-get_len p n v h = ground (arith, v.len)

read_full-append : (xs rest : List ℕ) → read_full (length xs) (xs ++ rest) ≡ some (xs, rest)
read_full-append xs rest =
    let enough : ltb (length (xs ++ rest)) (length xs) ≡ false =
      ground (arith, length-append {0} xs rest) in
    rw (enough, take-length_append, length-drop_append) refl

-- `Write` frames a message within the limits: the length, and the arguments behind it.
write_lem :
    (p : MsgParser) (args : List (List ℕ))
    → IsValid p
    → length (concat args) + 4 < u32_mod
    → p.min_msg_len ≤ length (concat args)
    → length (concat args) ≤ p.max_msg_len
    → write p args ≡ some (ok (put_len p (length (concat args)) ++ concat args))
unfolding write
write_lem p args v small lo hi =
    let long : ltb p.max_msg_len (length (concat args)) ≡ false = ground arith in
    let short : ltb (length (concat args)) p.min_msg_len ≡ false = ground arith in
    let size : (p.len_msg_len + length (concat args)) % u32_mod
        ≡ p.len_msg_len + length (concat args) =
      ground (arith, v.len) in
    rw
      (
        total_len-concat args (omega (arith, small)),
        long,
        short,
        size,
        copy_args-concat (p.len_msg_len + length (concat args)) p.len_msg_len args refl,
      )
      refl

read-put_len :
    (p : MsgParser) (message rest : List ℕ)
    → IsValid p
    → p.min_msg_len ≤ length message
    → length message ≤ p.max_msg_len
    → read p ((put_len p (length message) ++ message) ++ rest) ≡ (ok message, rest)
unfolding read read_body
read-put_len p message rest v lo hi =
    let (len, got) = put_len-get_len p (length message) v (omega (arith, hi, v.max)) in
    let long : ltb p.max_msg_len (length message) ≡ false = ground arith in
    let short : ltb (length message) p.min_msg_len ≡ false = ground arith in
    let front : read_full p.len_msg_len (put_len p (length message) ++ (message ++ rest))
        ≡ some (put_len p (length message), message ++ rest) =
      ap (λ n. read_full n (put_len p (length message) ++ (message ++ rest))) (sym len)
      ∙ read_full-append (put_len p (length message)) (message ++ rest) in
    rw (append_assoc, front, got, long, short, read_full-append message rest) refl

-- What `Write` frames `Read` takes apart: any arguments whose bytes together are within the limits
-- are framed, and the peer reads the message that they make, and then stands behind it.
pub read-write :
    (p : MsgParser) (args : List (List ℕ)) (rest : List ℕ)
    → IsValid p
    → length (concat args) + 4 < u32_mod
    → p.min_msg_len ≤ length (concat args)
    → length (concat args) ≤ p.max_msg_len
    → (frame : List ℕ) × (write p args ≡ some (ok frame))
      × (read p (frame ++ rest) ≡ (ok (concat args), rest))
read-write p args rest v small lo hi =
    (_, write_lem p args v small lo hi, read-put_len p (concat args) rest v lo hi)
