-- ===== src/Fec/Encoder/Tuned.antt =====
-- The decoder of network/kcp/fec.go with the encoder's numbers of shards has no reason to tune.
use native.Mathlib.Nat.{mul-add-mod_self_right, mod-eq_of_lt}
use emt.Common.{
  ℕ, ◌+◌, ◌-◌, ◌*◌, ◌%◌, ◌≤◌, ◌<◌, ◌≡◌, refl, ap, sym, ◌∙◌, Bool, true, false, Option, none, some,
  List, [], ◌∷◌, ◌++◌, map, length, All, arith, ◌==◌, if◌then◌else◌, subst,
}
use emt.Word.{IsU32, add32}
use emt.Kcp.Codec.{encode16u, encode32u, decode16u, decode32u}
use emt.Fec.Packet.{FecPacket, read_packet, ReedSolomon, type_parity, mark}
use emt.Fec.Encoder.{
  Encoder, shard_count, mark_data, mark_parity, mark_shards, add_packet, close_group, pad,
  encode_packet,
}
use emt.Fec.Encoder.Numbers.{
  IsPlaced, IsCounted, next_parity, wrapped, room, length-mark_shards, add_packet-IsPlaced,
}
use emt.Fec.Decoder.{Decoder, should_tune}

-- What `seqid`, `flag` and `data` read behind a header is what was marked.
read_packet-mark :
    (seqid flag : ℕ) (s : List ℕ)
    → IsU32 seqid
    → flag < 65536
    → read_packet (mark seqid flag ++ s) ≡ some (record { seqid = seqid; flag = flag; payload = s })
unfolding read_packet mark decode32u decode16u encode32u encode16u
read_packet-mark seqid flag s hs hf = ground arith

-- The decoder reads a packet whose kind is the one of its place.
abbrev pub IsRight : Decoder → List ℕ → Type 0
IsRight dec bytes = (p : FecPacket) × (read_packet bytes ≡ some p) × (should_tune p dec ≡ false)

place-mod : (g s c : ℕ) → c < s → (g * s + c) % s ≡ c
place-mod g s c h = mul-add-mod_self_right g s c ∙ mod-eq_of_lt h

parity-IsRight :
    (enc : Encoder) (dec : Decoder) (c : ℕ) (s : List ℕ)
    → dec.data_shards ≡ enc.data_shards
    → dec.shard_size ≡ enc.shard_size
    → enc.data_shards ≤ c
    → c < enc.shard_size
    → IsPlaced enc c
    → IsRight dec (mark enc.next type_parity ++ s)
unfolding should_tune
parity-IsRight enc dec c s ed es hd hs v =
    let r = room enc c v in
    let place : enc.next % dec.shard_size ≡ c =
      ap (λ n. n % dec.shard_size) v.next
      ∙ ap (λ m. (v.group * enc.shard_size + c) % m) es
      ∙ place-mod v.group enc.shard_size c hs in
    (
      _,
      read_packet-mark enc.next type_parity s (omega (arith, r, v.small, hs)) (omega arith),
      rw place (ground (arith, ed, hd)),
    )

mark_shards-IsRight :
    (enc : Encoder) (dec : Decoder) (c : ℕ) (ss : List (List ℕ))
    → dec.data_shards ≡ enc.data_shards
    → dec.shard_size ≡ enc.shard_size
    → enc.data_shards ≤ c
    → c + length ss ≤ enc.shard_size
    → IsPlaced enc c
    → All (IsRight dec) (mark_shards enc ss).0
unfolding mark_shards mark_parity
mark_shards-IsRight enc dec c [] ed es hd hs v = tt
mark_shards-IsRight enc dec c (s ∷ []) ed es hd hs v =
    (parity-IsRight enc dec c s ed es hd (omega (arith, hs)) v, tt)
mark_shards-IsRight enc dec c (s ∷ t ∷ ts) ed es hd hs v =
    let r = room enc c v in
    let more : wrapped enc.paws (enc.next + 1) ≡ enc.next + 1 = ground (arith, r, hs) in
    let up : add32 enc.next 1 % enc.paws ≡ enc.next + 1 =
      next_parity enc.next enc.paws (omega (arith, r, hs)) v.small ∙ more in
    let v' : IsPlaced (record enc { next = add32 enc.next 1 % enc.paws }) (c + 1) = record {
      size = v.size;
      groups = v.groups;
      paws = v.paws;
      small = v.small;
      group = v.group;
      next = omega (arith, up, v.next);
      before = v.before;
      parity = v.parity;
    } in
    (
      parity-IsRight enc dec c s ed es hd (omega (arith, hs)) v,
      mark_shards-IsRight (record enc { next = add32 enc.next 1 % enc.paws }) dec (c + 1) (t ∷ ts)
          ed es (omega (arith, hd)) (omega (arith, hs)) v',
    )

close_group-IsRight :
    (codec : ReedSolomon) (enc : Encoder) (dec : Decoder)
    → dec.data_shards ≡ enc.data_shards
    → dec.shard_size ≡ enc.shard_size
    → IsPlaced enc enc.data_shards
    → length (close_group codec enc).0 ≤ enc.parity_shards
    → All (IsRight dec) (close_group codec enc).0
unfolding close_group
close_group-IsRight codec enc dec ed es v = closed (
    codec.parity enc.data_shards enc.parity_shards
      (map (pad (enc.max_size - enc.payload_offset)) enc.shard_cache))
  where
    closed :
        (o : Option (List (List ℕ)))
        → let r : List (List ℕ) × Encoder = elim o [
          | none ↦ ([], record enc { max_size = 0; shard_cache = [] })
          | some parities ↦
              let (ps, enc') = mark_shards enc parities in
              (ps, record enc' { max_size = 0; shard_cache = [] })
        ] in
          length r.0 ≤ enc.parity_shards → All (IsRight dec) r.0
    closed none len = tt
    closed (some parities) len =
        mark_shards-IsRight enc dec enc.data_shards parities ed es (omega arith)
          (omega (arith, len, length-mark_shards enc parities, v.size)) v

-- A decoder with the encoder's numbers of shards reads every parity packet, if the codec made no more
-- than there should be, as one whose kind is that of its place in the group: it does not tune.
pub encode_packet-IsRight :
    (codec : ReedSolomon) (b : List ℕ) (enc : Encoder) (dec : Decoder)
    → IsCounted enc
    → dec.data_shards ≡ enc.data_shards
    → dec.shard_size ≡ enc.shard_size
    → length (encode_packet codec b enc).1 ≤ enc.parity_shards
    → All (IsRight dec) (encode_packet codec b enc).1
unfolding encode_packet
encode_packet-IsRight codec b enc dec v ed es =
    let (placed, count, same_data, same_parity) = add_packet-IsPlaced b enc v in
    last (add_packet b enc).1 (shard_count (add_packet b enc).1 == (add_packet b enc).1.data_shards)
      refl (ed ∙ sym same_data) (unfold add_packet mark_data in es) placed same_parity
  where
    last :
        (enc' : Encoder) (whole : Bool)
        → (shard_count enc' == enc'.data_shards) ≡ whole
        → dec.data_shards ≡ enc'.data_shards
        → dec.shard_size ≡ enc'.shard_size
        → IsPlaced enc' (shard_count enc')
        → enc'.parity_shards ≡ enc.parity_shards
        → length (if whole then close_group codec enc' else ([], enc')).0 ≤ enc.parity_shards
        → All (IsRight dec) (if whole then close_group codec enc' else ([], enc')).0
    last enc' true e ed' es' v' ep len =
        let same : shard_count enc' ≡ enc'.data_shards = ground arith in
        close_group-IsRight codec enc' dec ed' es' (subst (IsPlaced enc') same v')
          (omega (arith, len, ep))
    last enc' false e ed' es' v' ep len = tt
