-- ===== src/Protobuf.antt =====
-- network/codec/protobuf/protobuf.go: messages with the numbers of their types before them. The
-- protobuf library is other code, and a parameter.
pub mod RoundTrip
pub mod Sessions
pub mod Tests
use emt.Common.{
  ℕ, ◌+◌, ◌-◌, ◌*◌, ◌/◌, ◌%◌, Bool, true, false, Option, none, some, List, [], ◌∷◌, ◌++◌, length,
  get_elem?, leb, ◌==◌, if◌then◌else◌,
}

-- A message: its type, by a number, and what it holds.
pub record Message : Type 0 where
  pub msg_type : ℕ
  pub content : ℕ

-- `proto.Marshal`, and `proto.UnmarshalMerge` into a new message of a type; `none` is an error.
pub record Proto : Type 0 where
  pub marshal : Message → Option (List ℕ)
  pub unmarshal : ℕ → List ℕ → Option Message

-- `Processor`. The types in the order in which they were registered, and their numbers.
pub record Processor : Type 0 where
  pub little_endian : Bool
  pub msg_info : List ℕ
  pub msg_id : List (ℕ × ℕ)

-- `NewCodec`, `SetByteOrder`.
unfoldable pub new_codec : Processor
new_codec = record { little_endian = false; msg_info = []; msg_id = [] }

unfoldable pub set_byte_order : Bool → Processor → Processor
set_byte_order little_endian p = record p { little_endian = little_endian }

abbrev pub find : ℕ → List (ℕ × ℕ) → Option ℕ
find t [] = none
find t ((u, i) ∷ is) = if u == t then some i else find t is

-- `Registe`, for a type that is a pointer, or for nil and other types. The number wraps.
abbrev pub registe_new : ℕ → Option ℕ → Processor → ℕ × Processor
registe_new t (some i) p = (0, p)
registe_new t none p =
    let id = length p.msg_info % 65536 in
    (id, record p { msg_info = p.msg_info ++ (t ∷ []); msg_id = (t, id) ∷ p.msg_id })

unfoldable pub registe : Option ℕ → Processor → ℕ × Processor
registe none p = (0, p)
registe (some t) p = registe_new t (find t p.msg_id) p

-- How `Unmarshal` and `Marshal` end.
pub data Result (A : Type 0) : Type 0 where
  ok : A → Result A
  too_short not_registered failed panicked : Result A

-- `PutUint16` and `Uint16`.
abbrev pub put_uint16 : Bool → ℕ → List ℕ
put_uint16 true id = id % 256 ∷ id / 256 ∷ []
put_uint16 false id = id / 256 ∷ id % 256 ∷ []

abbrev pub uint16 : Bool → ℕ → ℕ → ℕ
uint16 true a b = a + 256 * b
uint16 false a b = 256 * a + b

abbrev pub merged : Option Message → Result Message
merged none = failed
merged (some m) = ok m

module _ (pb : Proto) where
  -- The end of `Unmarshal`; `none` is an index out of range.
  abbrev pub unmarshal_type : Option ℕ → List ℕ → Result Message
  unmarshal_type none bytes = panicked
  unmarshal_type (some t) bytes = merged (pb.unmarshal t bytes)

  -- `Unmarshal`.
  unfoldable pub unmarshal : Processor → List ℕ → Result Message
  unmarshal p [] = too_short
  unmarshal p (a ∷ []) = too_short
  unmarshal p (a ∷ b ∷ bytes) =
      let id = uint16 p.little_endian a b in
      if leb (length p.msg_info % 65536) id
      then not_registered
      else unmarshal_type (get_elem? p.msg_info id) bytes

  abbrev pub marshal_bytes : List ℕ → Option (List ℕ) → Result (List ℕ)
  marshal_bytes id none = failed
  marshal_bytes id (some bytes) = ok (id ++ bytes)

  abbrev pub marshal_id : Processor → Message → Option ℕ → Result (List ℕ)
  marshal_id p m none = not_registered
  marshal_id p m (some id) = marshal_bytes (put_uint16 p.little_endian id) (pb.marshal m)

  -- `Marshal`.
  unfoldable pub marshal : Processor → Message → Result (List ℕ)
  marshal p m = marshal_id p m (find m.msg_type p.msg_id)
