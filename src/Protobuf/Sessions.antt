-- ===== src/Protobuf/Sessions.antt =====
-- Sessions of network/session that use the codec of network/codec/protobuf.
use emt.Common.{
  ℕ, ◌+◌, ◌<◌, ◌≡◌, ap, sym, Option, none, some, List, [], ◌∷◌, ◌++◌, length, length-append, arith,
}
use emt.Session.{Codec, Session, run}
use emt.Session.RoundTrip.{AreSent, run-write_message}
use emt.Protobuf.{
  Message, Proto, Processor, new_codec, find, registe, registe_new, Result, ok, too_short,
  not_registered, failed, panicked, unmarshal, marshal,
}
use emt.Protobuf.RoundTrip.{
  IsProto, IsConsistent, registe_all, registe-IsConsistent, unmarshal-marshal,
}

-- `Codec` of a session: an error gives no message and no bytes.
abbrev pub result_option : {A : Type 0} → Result A → Option A
result_option (ok a) = some a
result_option too_short = none
result_option not_registered = none
result_option failed = none
result_option panicked = none

abbrev pub codec_of : Proto → Processor → Codec Message
codec_of pb p = record {
  marshal = λ m. result_option (marshal pb p m);
  unmarshal = λ bytes. result_option (unmarshal pb p bytes);
}

result_option-some : {A : Type 0} (r : Result A) (a : A) → result_option r ≡ some a → r ≡ ok a
result_option-some (ok b) a e = cc e
result_option-some too_short a e = absurd (cc e)
result_option-some not_registered a e = absurd (cc e)
result_option-some failed a e = absurd (cc e)
result_option-some panicked a e = absurd (cc e)

registe-length :
    (t : ℕ) (ts : List ℕ) (p : Processor)
    → length p.msg_info + length (t ∷ ts) < 65536
    → length (registe (some t) p).1.msg_info + length ts < 65536
unfolding registe
registe-length t ts p l = by_number (find t p.msg_id)
  where
    by_number : (o : Option ℕ) → length (registe_new t o p).1.msg_info + length ts < 65536
    by_number (some i) = omega arith
    by_number none = omega (arith, length-append p.msg_info (t ∷ []))

registe_all-IsConsistent :
    (ts : List ℕ) (p : Processor)
    → length p.msg_info + length ts < 65536
    → IsConsistent p
    → IsConsistent (registe_all ts p)
registe_all-IsConsistent [] p l v = v
registe_all-IsConsistent (t ∷ ts) p l v =
    registe_all-IsConsistent ts (registe (some t) p).1 (registe-length t ts p l)
      (registe-IsConsistent t p (omega arith) v)

new_codec-IsConsistent : IsConsistent new_codec
unfolding new_codec
new_codec-IsConsistent = record { few = omega arith; placed = λ t i e. absurd (cc e) }

pub registered-IsConsistent :
    (ts : List ℕ) → length ts < 65536 → IsConsistent (registe_all ts new_codec)
unfolding new_codec
registered-IsConsistent ts few =
    registe_all-IsConsistent ts new_codec (omega arith) new_codec-IsConsistent

abbrev pub plain_session : Proto → List ℕ → Session Message
plain_session pb ts = record {
  codec = codec_of pb (registe_all ts new_codec);
  crypt = none;
  entries = [];
}

-- Two programs that register the same types, fewer than 65536, in the same order: the messages that
-- one session wrote come to the handler of the other, all of them and in order.
pub run-marshal :
    (pb : Proto) (ts : List ℕ) (ms : List Message) (ds rest : List (List ℕ))
    → IsProto pb
    → length ts < 65536
    → AreSent (plain_session pb ts) ms ds
    → run (plain_session pb ts) (ds ++ rest) ≡ ms ++ run (plain_session pb ts) rest
run-marshal pb ts ms ds rest inverse few h =
    let v = registered-IsConsistent ts few in
    run-write_message (plain_session pb ts) (plain_session pb ts)
      (record {
        codec = λ m d e. ap result_option (
            unmarshal-marshal pb (registe_all ts new_codec) m d inverse v
              (result_option-some _ d e));
        crypt = λ d e q. sym q;
      })
      ms ds rest h
