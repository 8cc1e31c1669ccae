-- ===== src/Protobuf/Tests.antt =====
-- network/codec/protobuf with messages of two types whose content is one byte.
use emt.Common.{ℕ, ◌≡◌, refl, ap, none, some, List, [], ◌∷◌, arith}
use emt.Session.{run}
use emt.Protobuf.{Message, Proto, Processor, new_codec, registe, ok, marshal}
use emt.Protobuf.RoundTrip.{IsProto, registe_all}
use emt.Protobuf.Sessions.{plain_session, run-marshal}

abbrev bytes : Proto
bytes = record {
  marshal = λ m. some (m.content ∷ []);
  unmarshal =
      λ t bs. elim bs [ [] ↦ none | b ∷ rest ↦ some (record { msg_type = t; content = b }) ];
}

bytes-IsProto : IsProto bytes
bytes-IsProto m bs e = by_bytes bs e
  where
    by_bytes :
        (bs : List ℕ) → some (m.content ∷ []) ≡ some bs → bytes.unmarshal m.msg_type bs ≡ some m
    by_bytes [] e = absurd (cc e)
    by_bytes (b ∷ rest) e =
        let same : b ≡ m.content = cc e in
        ap (λ c. some (record { msg_type = m.msg_type; content = c })) same

abbrev message : Message
message = record { msg_type = 31; content = 7 }

abbrev processor : Processor
processor = registe_all (30 ∷ 31 ∷ []) new_codec

marshalled : marshal bytes processor message ≡ ok (0 ∷ 1 ∷ 7 ∷ [])
unfolding marshal registe new_codec
marshalled = refl

run-marshal_example :
    run (plain_session bytes (30 ∷ 31 ∷ [])) ((0 ∷ 1 ∷ 7 ∷ []) ∷ (9 ∷ []) ∷ [])
    ≡ message ∷ run (plain_session bytes (30 ∷ 31 ∷ [])) ((9 ∷ []) ∷ [])
unfolding marshal registe new_codec emt.Session.write_message
run-marshal_example =
    run-marshal bytes (30 ∷ 31 ∷ []) (message ∷ []) ((0 ∷ 1 ∷ 7 ∷ []) ∷ []) ((9 ∷ []) ∷ [])
      bytes-IsProto (omega arith) (refl, tt)
