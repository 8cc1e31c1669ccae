-- ===== src/Protobuf/RoundTrip.antt =====
-- Messages of registered types through network/codec/protobuf.
use emt.Common.{
  ℕ, zero, suc, ◌+◌, ◌/◌, ◌%◌, ◌<◌, ◌≡◌, ◌≢◌, refl, ap, sym, subst, ◌∙◌, inl, inr, Bool, true,
  false, Bool-cases, Option, none, some, List, [], ◌∷◌, ◌++◌, length, length-append, get_elem?, leb,
  ◌==◌, arith,
}
use emt.Protobuf.{
  Message, Proto, Processor, find, registe, registe_new, ok, put_uint16, uint16, merged,
  unmarshal_type, unmarshal, marshal_bytes, marshal_id, marshal,
}

-- What the library promises: a message is read as what was written.
abbrev pub IsProto : Proto → Type 0
IsProto pb =
    (m : Message) (bytes : List ℕ)
    → pb.marshal m ≡ some bytes
    → pb.unmarshal m.msg_type bytes ≡ some m

-- The number of a type is its place, and there are fewer types than numbers.
pub record IsConsistent (p : Processor) : Type 0 where
  pub few : length p.msg_info < 65536
  pub placed :
      (t i : ℕ)
      → find t p.msg_id ≡ some i
      → (get_elem? p.msg_info i ≡ some t) × (i < length p.msg_info)

get_elem?-append {ℓ} :
    {A : Type ℓ} (xs ys : List A) (i : ℕ) → i < length xs → get_elem? (xs ++ ys) i ≡ get_elem? xs i
get_elem?-append [] ys i h = absurd (omega arith)
get_elem?-append (x ∷ xs) ys zero h = refl
get_elem?-append (x ∷ xs) ys (suc i) h = get_elem?-append xs ys i (omega arith)

get_elem?-last {ℓ} :
    {A : Type ℓ} (xs : List A) (x : A) → get_elem? (xs ++ (x ∷ [])) (length xs) ≡ some x
get_elem?-last [] x = refl
get_elem?-last (y ∷ xs) x = get_elem?-last xs x

abbrev pub registe_all : List ℕ → Processor → Processor
registe_all [] p = p
registe_all (t ∷ ts) p = registe_all ts (registe (some t) p).1

pub registe-IsConsistent :
    (t : ℕ) (p : Processor)
    → length p.msg_info + 1 < 65536
    → IsConsistent p
    → IsConsistent (registe (some t) p).1
unfolding registe
registe-IsConsistent t p l v = by_number (find t p.msg_id)
  where
    placed :
        (u i : ℕ)
        → find u ((t, length p.msg_info % 65536) ∷ p.msg_id) ≡ some i
        → (get_elem? (p.msg_info ++ (t ∷ [])) i ≡ some u) × (i < length (p.msg_info ++ (t ∷ [])))
    placed u i e = elim (Bool-cases (t == u)) [
      | inl same ↦
          let number : length p.msg_info % 65536 ≡ i = cc (rw same at e) in
          let place : i ≡ length p.msg_info = omega arith in
          let type : t ≡ u = ground arith in
          (
            subst (λ j. get_elem? (p.msg_info ++ (t ∷ [])) j ≡ some u) (sym place)
                (get_elem?-last p.msg_info t ∙ ap some type),
            omega (arith, length-append p.msg_info (t ∷ [])),
          )
      | inr other ↦
          let (at, below) = v.placed u i (rw other at e) in
          (
            get_elem?-append p.msg_info (t ∷ []) i below ∙ at,
            omega (arith, length-append p.msg_info (t ∷ [])),
          )
    ]

    by_number : (o : Option ℕ) → IsConsistent (registe_new t o p).1
    by_number (some i) = v
    by_number none = record {
      few = omega (arith, length-append p.msg_info (t ∷ []));
      placed = placed;
    }

unmarshal_number :
    (pb : Proto) (p : Processor) (a b id : ℕ) (bytes : List ℕ)
    → uint16 p.little_endian a b ≡ id
    → id < length p.msg_info
    → length p.msg_info < 65536
    → unmarshal pb p (a ∷ b ∷ bytes) ≡ unmarshal_type pb (get_elem? p.msg_info id) bytes
unfolding unmarshal
unmarshal_number pb p a b id bytes e l f =
    let known : leb (length p.msg_info % 65536) id ≡ false = ground arith in rw (e, known) refl

unmarshal-put_uint16 :
    (pb : Proto) (p : Processor) (b : Bool) (id : ℕ) (bytes : List ℕ)
    → p.little_endian ≡ b
    → id < length p.msg_info
    → length p.msg_info < 65536
    → unmarshal pb p (put_uint16 b id ++ bytes) ≡ unmarshal_type pb (get_elem? p.msg_info id) bytes
unmarshal-put_uint16 pb p true id bytes e l f =
    unmarshal_number pb p (id % 256) (id / 256) id bytes
      (ap (λ c. uint16 c (id % 256) (id / 256)) e ∙ omega arith) l f
unmarshal-put_uint16 pb p false id bytes e l f =
    unmarshal_number pb p (id / 256) (id % 256) id bytes
      (ap (λ c. uint16 c (id / 256) (id % 256)) e ∙ omega arith) l f

-- If the library reads what it wrote, and each type has its place as its number: what Marshal makes
-- of a message, Unmarshal reads as the message.
pub unmarshal-marshal :
    (pb : Proto) (p : Processor) (m : Message) (bytes : List ℕ)
    → IsProto pb
    → IsConsistent p
    → marshal pb p m ≡ ok bytes
    → unmarshal pb p bytes ≡ ok m
unfolding marshal
unmarshal-marshal pb p m bytes inverse v e = by_number (find m.msg_type p.msg_id) refl e
  where
    by_bytes :
        (id : ℕ) (o : Option (List ℕ))
        → find m.msg_type p.msg_id ≡ some id
        → pb.marshal m ≡ o
        → marshal_bytes pb (put_uint16 p.little_endian id) o ≡ ok bytes
        → unmarshal pb p bytes ≡ ok m
    by_bytes id none q r k = absurd (cc k)
    by_bytes id (some content) q r k =
        let whole : put_uint16 p.little_endian id ++ content ≡ bytes = cc k in
        let (at, below) = v.placed m.msg_type id q in
        ap (unmarshal pb p) (sym whole)
        ∙ unmarshal-put_uint16 pb p p.little_endian id content refl below v.few
        ∙ ap (λ t. unmarshal_type pb t content) at
        ∙ ap merged (inverse m content r)

    by_number :
        (o : Option ℕ)
        → find m.msg_type p.msg_id ≡ o
        → marshal_id pb p m o ≡ ok bytes
        → unmarshal pb p bytes ≡ ok m
    by_number none q k = absurd (cc k)
    by_number (some id) q k = by_bytes id (pb.marshal m) q refl k

-- When 65536 types are registered, no message can be read any more.
pub unmarshal-ne-ok :
    (pb : Proto) (p : Processor) (bytes : List ℕ) (m : Message)
    → length p.msg_info ≡ 65536
    → unmarshal pb p bytes ≢ ok m
unfolding unmarshal
unmarshal-ne-ok pb p [] m l e = cc e
unmarshal-ne-ok pb p (a ∷ []) m l e = cc e
unmarshal-ne-ok pb p (a ∷ b ∷ bytes) m l e =
    let full : leb (length p.msg_info % 65536) (uint16 p.little_endian a b) ≡ true = ground arith in
    cc (rw full at e)
