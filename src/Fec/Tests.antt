-- ===== src/Fec/Tests.antt =====
-- network/kcp/fec.go with the simplest code: one data shard, and one parity shard that repeats it.
use emt.Common.{All, arith, ℕ, ◌≡◌, refl, ◌≤◌, max, some, List, [], ◌∷◌, ◌==◌, ◌&&◌}
use emt.Word.{pos}
use emt.Kcp.Ack.{Clock}
use emt.Fec.Packet.{ReedSolomon, FecPacket}
use emt.Fec.Tune.{Pulse}
use emt.Fec.Encoder.{Encoder, new_encoder, encode_packet, fec_encode}
use emt.Fec.Encoder.Tuned.{IsRight, encode_packet-IsRight}
use emt.Fec.Encoder.Numbers.{IsCounted, encode_packet-IsCounted}
use emt.Fec.Decoder.{Decoder, new_decoder, fec_decode}
use emt.Fec.Decoder.Bounds.{fec_decode-length}

-- The shard that came.
abbrev first_shard : List (List ℕ) → List ℕ
first_shard ([] ∷ s ∷ []) = s
first_shard (s ∷ _) = s
first_shard [] = []

abbrev repetition : ReedSolomon
repetition = record {
  accepts = λ d p. d == 1 && p == 1;
  parity = λ d p shards. some shards;
  reconstruct = λ d p shards. some (first_shard shards ∷ first_shard shards ∷ []);
}

abbrev clock : Clock
clock n = n

abbrev empty_decoder : Decoder
empty_decoder = record {
  rxlimit = 6;
  data_shards = 1;
  parity_shards = 1;
  shard_size = 2;
  rx = [];
  tune = [];
  reads = 0;
  short_shards = 0;
}

abbrev pub empty_encoder : Encoder
empty_encoder = record {
  data_shards = 1;
  parity_shards = 1;
  shard_size = 2;
  paws = 4294967294;
  next = 0;
  max_size = 0;
  header_offset = 0;
  payload_offset = 6;
  shard_cache = [];
}

new_encoder-repetition : new_encoder repetition (pos 1) (pos 1) 0 ≡ some empty_encoder
unfolding new_encoder
new_encoder-repetition = refl

-- The packet with its header and its size of four bytes, and the parity packet.
abbrev data_packet : List ℕ
data_packet = 0 ∷ 0 ∷ 0 ∷ 0 ∷ 241 ∷ 0 ∷ 4 ∷ 0 ∷ 65 ∷ 66 ∷ []

abbrev parity_packet : List ℕ
parity_packet = 1 ∷ 0 ∷ 0 ∷ 0 ∷ 242 ∷ 0 ∷ 4 ∷ 0 ∷ 65 ∷ 66 ∷ []

encode-first :
    fec_encode repetition (9 ∷ 9 ∷ 9 ∷ 9 ∷ 9 ∷ 9 ∷ 9 ∷ 9 ∷ 65 ∷ 66 ∷ []) empty_encoder
    ≡ some (data_packet, parity_packet ∷ [], record empty_encoder { next = 2 })
unfolding fec_encode emt.Word.add32 emt.Kcp.Codec.encode16u emt.Kcp.Codec.encode32u
encode-first = refl

-- The data packet is lost, and recovered from the parity packet.
decode-parity :
    fec_decode repetition clock parity_packet empty_decoder
    ≡ some ((4 ∷ 0 ∷ 65 ∷ 66 ∷ []) ∷ [], record empty_decoder { reads = 2 })
unfolding fec_decode emt.Fec.Packet.read_packet emt.Fec.Decoder.shoul_tune emt.Fec.Tune.tune_sample
    emt.Fec.Decoder.decode_packet emt.Word.add32 emt.Word.sub32 emt.Kcp.Window.itimediff
    emt.Word.to_i32
decode-parity = refl

fec_decode-length_example : 0 ≤ max 6 0
fec_decode-length_example =
    fec_decode-length repetition clock parity_packet empty_decoder
      (record empty_decoder { reads = 2 }) ((4 ∷ 0 ∷ 65 ∷ 66 ∷ []) ∷ []) decode-parity

empty_encoder-IsCounted : IsCounted empty_encoder
empty_encoder-IsCounted = record {
  placed = record {
    size = refl;
    groups = 2147483647;
    paws = refl;
    small = omega arith;
    group = 0;
    next = refl;
    before = omega arith;
    parity = omega arith;
  };
  count = omega arith;
}

encode_packet-IsCounted_example :
    IsCounted (encode_packet repetition (9 ∷ 9 ∷ 9 ∷ 9 ∷ 9 ∷ 9 ∷ 9 ∷ 9 ∷ 65 ∷ []) empty_encoder).2
unfolding encode_packet
encode_packet-IsCounted_example =
    encode_packet-IsCounted repetition (9 ∷ 9 ∷ 9 ∷ 9 ∷ 9 ∷ 9 ∷ 9 ∷ 9 ∷ 65 ∷ []) empty_encoder
      empty_encoder-IsCounted refl

encode_packet-IsRight_example :
    All
      (IsRight empty_decoder)
      (encode_packet repetition (9 ∷ 9 ∷ 9 ∷ 9 ∷ 9 ∷ 9 ∷ 9 ∷ 9 ∷ 65 ∷ []) empty_encoder).1
unfolding encode_packet
encode_packet-IsRight_example =
    encode_packet-IsRight repetition (9 ∷ 9 ∷ 9 ∷ 9 ∷ 9 ∷ 9 ∷ 9 ∷ 9 ∷ 65 ∷ []) empty_encoder
      empty_decoder empty_encoder-IsCounted refl refl (omega arith)
