-- ===== src/Fec/Decoder/Bounds.antt =====
-- How many packets the decoder of network/kcp/fec.go keeps.
use emt.Common.{
  ℕ, suc, ◌+◌, ◌-◌, ◌%◌, ◌≤◌, ◌≡◌, refl, max, inl, inr, Bool, true, false, Option, none, some, List,
  [], take, drop, length, length-append, length-take, length-drop, length-insert_at, insert_at,
  arith, ltb, leb, ◌==◌, Bool-cases, subst, if◌then◌else◌,
}
use emt.Word.{u32_mod, add32, sub32}
use emt.Kcp.Ack.{Clock}
use emt.Fec.Packet.{FecPacket, read_packet, is_data, ReedSolomon, mtu_limit}
use emt.Fec.Tune.{tune_sample}
use emt.Fec.Decoder.{
  Decoder, fec_nestif, retune, shoul_tune, search_range, recover, limit_rx, expire_rx, decode_at,
  decode_packet, fec_decode,
}
use emt.Fec.Shards.{
  Element, free_range, search_shards, found_none, Place, repeated, unplaced, behind, find_place,
  count_expired,
}

free_range-length : (first n : ℕ) (q : List Element) → length (free_range first n q) ≤ length q
unfolding free_range
free_range-length first n q = omega (
  arith,
  length-append {0} (take first q) (drop (first + n) q),
  length-take {0} first q,
  length-drop {0} (first + n) q,
)

-- The limit stays, and no packet is added.
abbrev Shrinks : Decoder → Decoder → Type 0
Shrinks dec dec' = (dec'.rxlimit ≡ dec.rxlimit) × (length dec'.rx ≤ length dec.rx)

fec_nestif-Shrinks :
    (codec : ReedSolomon) (search_begin search_end shard_end shard_begin : ℕ) (dec : Decoder)
    → Shrinks dec (fec_nestif codec search_begin search_end shard_end shard_begin dec).1
unfolding fec_nestif
fec_nestif-Shrinks codec search_begin search_end shard_end shard_begin dec =
    let range = take (search_end + 1 - search_begin) (drop search_begin dec.rx) in
    let f =
      search_shards dec.shard_size shard_begin shard_end search_begin range
        (found_none dec.shard_size) in
    let less = free_range-length f.first f.count dec.rx in
    elim (Bool-cases (f.data_count == dec.data_shards)) [
      | inl whole ↦ rw whole (refl, less)
      | inr lost ↦ elim (Bool-cases (leb dec.data_shards f.count)) [
        | inl enough ↦ rw (lost, enough) (refl, less)
        | inr few ↦ rw (lost, few) (refl, omega arith)
      ]
    ]

recover-Shrinks :
    (codec : ReedSolomon) (p : FecPacket) (idx : ℕ) (dec : Decoder)
    → Shrinks dec (recover codec p idx dec).1
unfolding recover
recover-Shrinks codec p idx dec =
    let shard_begin = sub32 p.seqid (p.seqid % dec.shard_size) in
    let shard_end = sub32 (add32 shard_begin dec.shard_size) 1 in
    let (begin, end) = search_range p idx dec in
    elim (Bool-cases (leb dec.data_shards (end + 1 - begin))) [
      | inl enough ↦ rw enough (fec_nestif-Shrinks codec begin end shard_end shard_begin dec)
      | inr few ↦ rw few (refl, omega arith)
    ]

limit_rx-length :
    (dec : Decoder) (n : ℕ)
    → length dec.rx ≤ suc n
    → (limit_rx dec).rxlimit ≡ dec.rxlimit × (length (limit_rx dec).rx ≤ max dec.rxlimit n)
unfolding limit_rx
limit_rx-length dec n h = elim (Bool-cases (ltb dec.rxlimit (length dec.rx))) [
  | inl over ↦ rw over (refl, unfold free_range in omega (arith, h, length-drop {0} 1 dec.rx))
  | inr fits ↦ rw fits (refl, ground arith)
]

decode_at-length :
    (codec : ReedSolomon) (clock : Clock) (p : FecPacket) (idx : ℕ) (dec : Decoder)
    → let dec' = (decode_at codec clock p idx dec).1 in
      length dec'.rx ≤ max dec'.rxlimit (length dec.rx)
unfolding decode_at expire_rx
decode_at-length codec clock p idx dec =
    let elem : Element = record { packet = p; ts = clock dec.reads % u32_mod } in
    let dec0 = record dec { rx = insert_at idx elem dec.rx; reads = dec.reads + 1 } in
    let (same1, less1) = recover-Shrinks codec p idx dec0 in
    let len = length-insert_at idx elem dec.rx in
    let dec1 = (recover codec p idx dec0).1 in
    let (same2, less2) = limit_rx-length dec1 (length dec.rx) (omega (arith, less1, len)) in
    let now = clock (limit_rx dec1).reads % u32_mod in
    omega (
      arith,
      same2,
      less2,
      free_range-length 0 (count_expired now (limit_rx dec1).rx) (limit_rx dec1).rx,
    )

-- The packets of a result are within the limit, or no more than so many.
Within : ℕ → Option (List (List ℕ) × Decoder) → Type 0
Within n none = Unit
Within n (some (recovered, dec)) = length dec.rx ≤ max dec.rxlimit n

decode_packet-Within :
    (codec : ReedSolomon) (clock : Clock) (too_long : Bool) (p : FecPacket) (dec : Decoder)
    → Within (length dec.rx) (decode_packet codec clock too_long p dec)
unfolding decode_packet Within
decode_packet-Within codec clock too_long p dec = placed (find_place p.seqid dec.rx)
  where
    fits :
        (too_long : Bool) (idx : ℕ)
        → Within (length dec.rx) (if too_long then none else some (decode_at codec clock p idx dec))
    fits true idx = tt
    fits false idx = decode_at-length codec clock p idx dec

    placed :
        (place : Place)
        → Within (length dec.rx) (elim place [
          | repeated ↦ some ([], dec)
          | unplaced ↦ if too_long then none else some (decode_at codec clock p 0 dec)
          | behind n ↦ if too_long then none else some (decode_at codec clock p n dec)
        ])
    placed repeated = omega arith
    placed unplaced = fits too_long 0
    placed (behind n) = fits too_long n

shoul_tune-rx :
    (codec : ReedSolomon) (p : FecPacket) (dec tuned : Decoder)
    → shoul_tune codec p dec ≡ some tuned
    → tuned.rx ≡ dec.rx
unfolding shoul_tune retune
shoul_tune-rx codec p dec tuned e = grind (arith, e)

tuned-Within :
    (codec : ReedSolomon) (clock : Clock) (too_long : Bool) (p : FecPacket) (dec : Decoder)
    (o : Option Decoder)
    → ((tuned : Decoder) → o ≡ some tuned → tuned.rx ≡ dec.rx)
    → Within
        (length dec.rx)
        (elim o [ none ↦ some ([], dec) | some tuned ↦ decode_packet codec clock too_long p tuned ])
tuned-Within codec clock too_long p dec none same = unfold Within in omega arith
tuned-Within codec clock too_long p dec (some tuned) same =
    subst (λ rx. Within (length rx) (decode_packet codec clock too_long p tuned)) (same tuned refl)
      (decode_packet-Within codec clock too_long p tuned)

fec_decode-Within :
    (codec : ReedSolomon) (clock : Clock) (bytes : List ℕ) (dec : Decoder)
    → Within (length dec.rx) (fec_decode codec clock bytes dec)
unfolding fec_decode
fec_decode-Within codec clock bytes dec = whole (read_packet bytes)
  where
    whole :
        (o : Option FecPacket)
        → Within (length dec.rx) (elim o [
          | none ↦ none
          | some p ↦
              let sampled = record dec { tune = tune_sample (is_data p) p.seqid dec.tune } in
              elim (shoul_tune codec p sampled) [
                | none ↦ some ([], sampled)
                | some tuned ↦ decode_packet codec clock (ltb mtu_limit (length bytes)) p tuned
              ]
        ])
    whole none = unfold Within in tt
    whole (some p) =
        let sampled = record dec { tune = tune_sample (is_data p) p.seqid dec.tune } in
        tuned-Within codec clock (ltb mtu_limit (length bytes)) p sampled
          (shoul_tune codec p sampled) (shoul_tune-rx codec p sampled)

-- `decode` keeps no more packets than its limit, or than it kept before (the limit can have become
-- smaller by the tuning).
pub fec_decode-length :
    (codec : ReedSolomon) (clock : Clock) (bytes : List ℕ) (dec dec' : Decoder)
    (recovered : List (List ℕ))
    → fec_decode codec clock bytes dec ≡ some (recovered, dec')
    → length dec'.rx ≤ max dec'.rxlimit (length dec.rx)
unfolding Within
fec_decode-length codec clock bytes dec dec' recovered e =
    subst (Within (length dec.rx)) e (fec_decode-Within codec clock bytes dec)
