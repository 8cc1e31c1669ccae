-- ===== src/Fec/Decoder.antt =====
-- `fecDecoder` of network/kcp/fec.go.
pub mod Bounds
pub mod Octets
pub mod Sizes
use emt.Fec.Shards.{
  Element, Found, found_none, add_shard, search_shards, fill_shards, pick_recovered, free_range,
  Place, repeated, unplaced, behind, find_place, count_expired,
}
use emt.Common.{
  ℕ, zero, suc, ◌+◌, ◌-◌, ◌*◌, ◌%◌, ◌<◌, Bool, true, false, ◌&&◌, ◌||◌, not, Option, none, some,
  List, [], ◌∷◌, ◌++◌, take, drop, set, length, replicate, insert_at, ltb, leb, ◌==◌, if◌then◌else◌,
}
use emt.Word.{ℤ, pos, ltb_ℤ, leb_ℤ, eqb_ℤ, pos_part, u32_mod, u64_mod, add32, sub32}
use emt.Kcp.Window.{itimediff}
use emt.Kcp.Ack.{Clock}
use emt.Fec.Packet.{
  FecPacket, read_packet, is_data, ReedSolomon, type_data, type_parity, expire, rx_multi, mtu_limit,
  header_size,
}
use emt.Fec.Tune.{Pulse, samples, tune_sample, find_period}
use emt.Fec.Encoder.{pad}

-- `fecDecoder`. The caches are as long as a group and are cleared at the start of each search, so
-- they are not kept; the codec is the one for the numbers of shards. `reads` counts the readings of
-- the clock, and `short_shards` is the counter FECShortShards.
pub record Decoder : Type 0 where
  pub rxlimit : ℕ
  pub data_shards : ℕ
  pub parity_shards : ℕ
  pub shard_size : ℕ
  pub rx : List Element
  pub tune : List Pulse
  pub reads : ℕ
  pub short_shards : ℕ

-- `newFECDecoder`, where the codec can be made.
unfoldable pub new_decoder : ReedSolomon → ℤ → ℤ → Option Decoder
new_decoder codec data_shards parity_shards =
    let d = pos_part data_shards in
    let p = pos_part parity_shards in
    if leb_ℤ data_shards (pos 0) || leb_ℤ parity_shards (pos 0) || not (codec.accepts d p)
    then none
    else some (record {
      rxlimit = rx_multi * (d + p);
      data_shards = d;
      parity_shards = p;
      shard_size = d + p;
      rx = [];
      tune = replicate samples (record { bit = false; seq = 0 });
      reads = 0;
      short_shards = 0;
    })

-- `fecNestif`: what it recovers, and the state without the group once it is whole.
unfoldable pub fec_nestif : ReedSolomon → ℕ → ℕ → ℕ → ℕ → Decoder → List (List ℕ) × Decoder
unfolding search_shards fill_shards pick_recovered free_range
fec_nestif codec search_begin search_end shard_end shard_begin dec =
    let range = take (search_end + 1 - search_begin) (drop search_begin dec.rx) in
    let f =
      search_shards dec.shard_size shard_begin shard_end search_begin range
        (found_none dec.shard_size) in
    let freed = record dec { rx = free_range f.first f.count dec.rx } in
    if f.data_count == dec.data_shards
    then ([], freed)
    else if leb dec.data_shards f.count
    then (
      elim (codec.reconstruct dec.data_shards dec.parity_shards (fill_shards f.max_len f.shards)) [
        | none ↦ []
        | some shards ↦ pick_recovered dec.data_shards f.shards shards
      ],
      freed,
    )
    else ([], dec)

-- The test of `shoulTune`: the packet's kind is not the one of its place in the group.
unfoldable pub should_tune : FecPacket → Decoder → Bool
should_tune p dec =
    if ltb (p.seqid % dec.shard_size) dec.data_shards
    then not (p.flag == type_data)
    else not (p.flag == type_parity)

abbrev pub in_range : ℤ → Bool
in_range n = ltb_ℤ (pos 0) n && ltb_ℤ n (pos 256)

-- The numbers of shards that the tuner found.
unfoldable pub retune : ℤ → ℤ → Decoder → Decoder
retune ds ps dec =
    let d = pos_part ds in
    let p = pos_part ps in
    if in_range ds && in_range ps && (not (d == dec.data_shards) || not (p == dec.parity_shards))
    then record dec {
      data_shards = d;
      parity_shards = p;
      shard_size = d + p;
      rxlimit = rx_multi * (d + p);
    }
    else dec

-- `shoulTune`; `none` is its error, which `New` returns for numbers that are not positive too.
unfoldable pub shoul_tune : ReedSolomon → FecPacket → Decoder → Option Decoder
unfolding should_tune retune
shoul_tune codec p dec =
    let ds = find_period true dec.tune in
    let ps = find_period false dec.tune in
    if not (should_tune p dec)
    then some dec
    else if leb_ℤ ds (pos 0) || leb_ℤ ps (pos 0) || not (codec.accepts (pos_part ds) (pos_part ps))
    then none
    else some (retune ds ps dec)

-- `searchBegin` and `searchEnd`, for a packet that was put at `idx`.
abbrev pub search_range : FecPacket → ℕ → Decoder → ℕ × ℕ
search_range p idx dec =
    let begin = idx - p.seqid % dec.shard_size in
    let end = begin + dec.shard_size - 1 in
    (begin, if leb (length dec.rx) end then length dec.rx - 1 else end)

-- The search for the group of that packet.
unfoldable pub recover : ReedSolomon → FecPacket → ℕ → Decoder → List (List ℕ) × Decoder
unfolding fec_nestif
recover codec p idx dec =
    let shard_begin = sub32 p.seqid (p.seqid % dec.shard_size) in
    let shard_end = sub32 (add32 shard_begin dec.shard_size) 1 in
    let (begin, end) = search_range p idx dec in
    if leb dec.data_shards (end + 1 - begin)
    then fec_nestif codec begin end shard_end shard_begin dec
    else ([], dec)

-- The oldest packet goes where there are too many.
unfoldable pub limit_rx : Decoder → Decoder
unfolding free_range
limit_rx dec =
    if ltb dec.rxlimit (length dec.rx)
    then record dec {
      rx = free_range 0 1 dec.rx;
      short_shards = (elim dec.rx [
        | [] ↦ dec.short_shards
        | e ∷ es ↦ if is_data e.packet then (dec.short_shards + 1) % u64_mod else dec.short_shards
      ]);
    }
    else dec

-- The old packets at the front go.
unfoldable pub expire_rx : ℕ → Decoder → Decoder
unfolding count_expired free_range
expire_rx now dec = record dec { rx = free_range 0 (count_expired now dec.rx) dec.rx }

-- `decode`, of a packet that has a header, behind the samples.
unfoldable pub decode_at : ReedSolomon → Clock → FecPacket → ℕ → Decoder → List (List ℕ) × Decoder
unfolding recover limit_rx expire_rx
decode_at codec clock p idx dec =
    let elem : Element = record { packet = p; ts = clock dec.reads % u32_mod } in
    let (recovered, dec1) =
      recover codec p idx (record dec { rx = insert_at idx elem dec.rx; reads = dec.reads + 1 }) in
    let dec2 = limit_rx dec1 in
    let now = clock dec2.reads % u32_mod in
    (recovered, expire_rx now (record dec2 { reads = dec2.reads + 1 }))

-- The rest of `decode`, behind the tuning; `none` where the packet is longer than a buffer.
unfoldable pub decode_packet :
    ReedSolomon → Clock → Bool → FecPacket → Decoder → Option (List (List ℕ) × Decoder)
unfolding find_place decode_at
decode_packet codec clock too_long p dec = elim (find_place p.seqid dec.rx) [
  | repeated ↦ some ([], dec)
  | unplaced ↦ if too_long then none else some (decode_at codec clock p 0 dec)
  | behind n ↦ if too_long then none else some (decode_at codec clock p n dec)
]

-- `decode`. `none` where the packet has no header or is longer than a buffer: Go panics.
unfoldable pub fec_decode :
    ReedSolomon → Clock → List ℕ → Decoder → Option (List (List ℕ) × Decoder)
fec_decode codec clock bytes dec = elim (read_packet bytes) [
  | none ↦ none
  | some p ↦
      let sampled = record dec { tune = tune_sample (is_data p) p.seqid dec.tune } in
      elim (shoul_tune codec p sampled) [
        | none ↦ some ([], sampled)
        | some tuned ↦ decode_packet codec clock (ltb mtu_limit (length bytes)) p tuned
      ]
]

-- `release`.
unfoldable pub release : Decoder → Decoder
unfolding free_range
release dec =
    if ltb 0 (length dec.rx) then record dec { rx = free_range 0 (length dec.rx) dec.rx } else dec
