-- ===== src/Fec/Encoder.antt =====
-- `fecEncoder` of network/kcp/fec.go.
pub mod Numbers
pub mod Tuned
use emt.Common.{
  ℕ, ◌+◌, ◌-◌, ◌*◌, ◌/◌, ◌%◌, ◌<◌, Bool, ◌||◌, not, Option, none, some, List, [], ◌∷◌, ◌++◌, map,
  take, drop, length, replicate, ltb, leb, ◌==◌, if◌then◌else◌,
}
use emt.Word.{ℤ, pos, leb_ℤ, u32_mod, add32, pos_part}
use emt.Kcp.Codec.{encode16u}
use emt.Fec.Packet.{ReedSolomon, header_size, type_data, type_parity, mtu_limit, mark}

-- `fecEncoder`. Of `shardCache` only the data shards of the group in progress are kept, from the
-- payload on: the parity shards are written whole when the group is.
pub record Encoder : Type 0 where
  pub data_shards : ℕ
  pub parity_shards : ℕ
  pub shard_size : ℕ
  pub paws : ℕ
  pub next : ℕ
  pub max_size : ℕ
  pub header_offset : ℕ
  pub payload_offset : ℕ
  pub shard_cache : List (List ℕ)

-- `shardCount`.
abbrev pub shard_count : Encoder → ℕ
shard_count enc = length enc.shard_cache

-- `newFECEncoder`.
unfoldable pub new_encoder : ReedSolomon → ℤ → ℤ → ℕ → Option Encoder
new_encoder codec data_shards parity_shards offset =
    let d = pos_part data_shards in
    let p = pos_part parity_shards in
    if leb_ℤ data_shards (pos 0) || leb_ℤ parity_shards (pos 0) || not (codec.accepts d p)
    then none
    else some (record {
      data_shards = d;
      parity_shards = p;
      shard_size = d + p;
      paws = 4294967295 / (d + p) * (d + p);
      next = 0;
      max_size = 0;
      header_offset = offset;
      payload_offset = offset + header_size;
      shard_cache = [];
    })

-- The bytes from the offset on, replaced.
abbrev pub write_at : ℕ → List ℕ → List ℕ → List ℕ
write_at offset bytes b = take offset b ++ (bytes ++ drop (offset + length bytes) b)

-- `markData`: the header of a data packet, and the next number.
unfoldable pub mark_data : Encoder → List ℕ × Encoder
unfolding mark
mark_data enc = (mark enc.next type_data, record enc { next = add32 enc.next 1 })

-- `markParity`.
unfoldable pub mark_parity : Encoder → List ℕ × Encoder
unfolding mark
mark_parity enc = (mark enc.next type_parity, record enc { next = add32 enc.next 1 % enc.paws })

-- The loop over the parity shards, each from its header on.
unfoldable pub mark_shards : Encoder → List (List ℕ) → List (List ℕ) × Encoder
unfolding mark_parity
mark_shards enc [] = ([], enc)
mark_shards enc (s ∷ ss) =
    let (head, enc') = mark_parity enc in
    let (rest, enc'') = mark_shards enc' ss in ((head ++ s) ∷ rest, enc'')

-- A shard filled up with zeros.
abbrev pub pad : ℕ → List ℕ → List ℕ
pad size s = s ++ replicate (size - length s) 0

-- The end of a group: the parity packets, from their headers on, and an empty group.
unfoldable pub close_group : ReedSolomon → Encoder → List (List ℕ) × Encoder
unfolding mark_shards
close_group codec enc =
    let size = enc.max_size - enc.payload_offset in
    let shards = map (pad size) enc.shard_cache in
    elim (codec.parity enc.data_shards enc.parity_shards shards) [
      | none ↦ ([], record enc { max_size = 0; shard_cache = [] })
      | some parities ↦
          let (ps, enc') = mark_shards enc parities in
          (ps, record enc' { max_size = 0; shard_cache = [] })
    ]

-- The first part of `encode`, of a packet with room for its header: the packet, and its shard.
unfoldable pub add_packet : List ℕ → Encoder → List ℕ × Encoder
unfolding mark_data
add_packet b enc =
    let (head, enc1) = mark_data enc in
    let size = (length b - enc.payload_offset) % 65536 in
    let packet =
      write_at enc.payload_offset (encode16u [] size) (write_at enc.header_offset head b) in
    (
      packet,
      record enc1 {
        shard_cache = enc1.shard_cache ++ (drop enc1.payload_offset packet ∷ []);
        max_size = if ltb enc1.max_size (length packet) then length packet else enc1.max_size;
      },
    )

-- `encode`, of such a packet.
unfoldable pub encode_packet : ReedSolomon → List ℕ → Encoder → List ℕ × List (List ℕ) × Encoder
unfolding add_packet close_group
encode_packet codec b enc =
    let (packet, enc') = add_packet b enc in
    let whole = shard_count enc' == enc'.data_shards in
    let (ps, enc'') = if whole then close_group codec enc' else ([], enc') in (packet, ps, enc'')

-- `encode`: the packet with its header and size, and the parity packets where the group is whole.
-- `none` where the packet has no room for them, or does not fit the buffer of a shard: Go panics.
unfoldable pub fec_encode :
    ReedSolomon → List ℕ → Encoder → Option (List ℕ × List (List ℕ) × Encoder)
unfolding encode_packet
fec_encode codec b enc =
    if ltb (length b) (enc.payload_offset + 2) || ltb mtu_limit (length b)
    then none
    else some (encode_packet codec b enc)
