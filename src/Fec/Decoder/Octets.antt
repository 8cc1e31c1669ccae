-- ===== src/Fec/Decoder/Octets.antt =====
-- The decoder of network/kcp/fec.go takes every packet that fits its buffers, and gives octets.
use emt.Common.{
  ℕ, zero, suc, ◌+◌, ◌-◌, ◌%◌, ◌≤◌, ◌≡◌, refl, inl, inr, Bool, false, Option, none, some, List, [],
  ◌∷◌, take, drop, length, arith, ltb, leb, ◌==◌, Bool-cases, All,
}
use emt.Word.{add32, sub32, IsByte}
use emt.Kcp.Ack.{Clock}
use emt.Kcp.Codec.{decode32u, decode16u}
use emt.Fec.Packet.{FecPacket, read_packet, ReedSolomon, mtu_limit}
use emt.Fec.Decoder.{
  Decoder, fec_nestif, shoul_tune, search_range, recover, decode_at, decode_packet, fec_decode,
}
use emt.Fec.Shards.{
  search_shards, found_none, fill_shards, pick_recovered, Place, repeated, unplaced, behind,
  find_place,
}

-- The codec gives octets, as `[]byte` in Go are.
abbrev pub GivesOctets : ReedSolomon → Type 0
GivesOctets codec =
    (d p : ℕ) (shards out : List (List ℕ))
    → codec.reconstruct d p shards ≡ some out
    → All (All IsByte) out

-- The decoder gave a result, of octets.
abbrev pub Yields : Option (List (List ℕ) × Decoder) → Type 0
Yields none = ⊥
Yields (some (rs, dec)) = All (All IsByte) rs

pick_recovered-IsByte :
    (n : ℕ) (flags : List (Option (List ℕ))) (shards : List (List ℕ))
    → All (All IsByte) shards
    → All (All IsByte) (pick_recovered n flags shards)
unfolding pick_recovered
pick_recovered-IsByte zero flags shards h = tt
pick_recovered-IsByte (suc n) [] shards h = tt
pick_recovered-IsByte (suc n) (none ∷ flags) [] h = tt
pick_recovered-IsByte (suc n) (some f ∷ flags) [] h = tt
pick_recovered-IsByte (suc n) (none ∷ flags) (s ∷ shards) (h, hs) =
    (h, pick_recovered-IsByte n flags shards hs)
pick_recovered-IsByte (suc n) (some f ∷ flags) (s ∷ shards) (h, hs) =
    pick_recovered-IsByte n flags shards hs

-- What is picked out of the codec's answer.
reconstructed-IsByte :
    (n : ℕ) (flags : List (Option (List ℕ))) (answer : Option (List (List ℕ)))
    → ((out : List (List ℕ)) → answer ≡ some out → All (All IsByte) out)
    → All (All IsByte) (elim answer [ none ↦ [] | some shards ↦ pick_recovered n flags shards ])
reconstructed-IsByte n flags none h = tt
reconstructed-IsByte n flags (some out) h = pick_recovered-IsByte n flags out (h out refl)

module _ (codec : ReedSolomon) (octets : GivesOctets codec) where
  fec_nestif-IsByte :
      (begin end shard_end shard_begin : ℕ) (dec : Decoder)
      → All (All IsByte) (fec_nestif codec begin end shard_end shard_begin dec).0
  unfolding fec_nestif
  fec_nestif-IsByte begin end shard_end shard_begin dec =
      let range = take (end + 1 - begin) (drop begin dec.rx) in
      let f =
        search_shards dec.shard_size shard_begin shard_end begin range
          (found_none dec.shard_size) in
      elim (Bool-cases (f.data_count == dec.data_shards)) [
        | inl whole ↦ rw whole tt
        | inr lost ↦ elim (Bool-cases (leb dec.data_shards f.count)) [
          | inl enough ↦
              rw (lost, enough)
                (reconstructed-IsByte dec.data_shards f.shards _
                  (octets dec.data_shards dec.parity_shards (fill_shards f.max_len f.shards)))
          | inr few ↦ rw (lost, few) tt
        ]
      ]

  recover-IsByte :
      (p : FecPacket) (idx : ℕ) (dec : Decoder) → All (All IsByte) (recover codec p idx dec).0
  unfolding recover
  recover-IsByte p idx dec =
      let shard_begin = sub32 p.seqid (p.seqid % dec.shard_size) in
      let shard_end = sub32 (add32 shard_begin dec.shard_size) 1 in
      let (begin, end) = search_range p idx dec in
      elim (Bool-cases (leb dec.data_shards (end + 1 - begin))) [
        | inl enough ↦ rw enough (fec_nestif-IsByte begin end shard_end shard_begin dec)
        | inr few ↦ rw few tt
      ]

  decode_at-IsByte :
      (clock : Clock) (p : FecPacket) (idx : ℕ) (dec : Decoder)
      → All (All IsByte) (decode_at codec clock p idx dec).0
  unfolding decode_at
  decode_at-IsByte clock p idx dec = recover-IsByte p idx _

  place-Yields :
      (clock : Clock) (p : FecPacket) (dec : Decoder) (place : Place)
      → Yields (elim place [
        | repeated ↦ some ([], dec)
        | unplaced ↦ some (decode_at codec clock p 0 dec)
        | behind n ↦ some (decode_at codec clock p n dec)
      ])
  place-Yields clock p dec repeated = tt
  place-Yields clock p dec unplaced = decode_at-IsByte clock p 0 dec
  place-Yields clock p dec (behind n) = decode_at-IsByte clock p n dec

  decode_packet-Yields :
      (clock : Clock) (p : FecPacket) (dec : Decoder)
      → Yields (decode_packet codec clock false p dec)
  unfolding decode_packet
  decode_packet-Yields clock p dec = place-Yields clock p dec (find_place p.seqid dec.rx)

  tuned-Yields :
      (clock : Clock) (p : FecPacket) (too_long : Bool) (sampled : Decoder) (tuned : Option Decoder)
      → too_long ≡ false
      → Yields (elim tuned [
        | none ↦ some ([], sampled)
        | some dec ↦ decode_packet codec clock too_long p dec
      ])
  tuned-Yields clock p too_long sampled none e = tt
  tuned-Yields clock p too_long sampled (some dec) e = rw e (decode_packet-Yields clock p dec)

  -- A decoder with any numbers of shards takes every packet that has a header and is no longer than
  -- 1500 bytes, and what it recovers is octets, if that is what the codec gives.
  pub fec_decode-Yields :
      (clock : Clock) (bytes : List ℕ) (dec : Decoder)
      → 6 ≤ length bytes
      → length bytes ≤ mtu_limit
      → Yields (fec_decode codec clock bytes dec)
  unfolding fec_decode read_packet decode32u decode16u
  fec_decode-Yields clock (b0 ∷ b1 ∷ b2 ∷ b3 ∷ b4 ∷ b5 ∷ rest) dec h l =
      tuned-Yields clock _ (ltb mtu_limit (length (b0 ∷ b1 ∷ b2 ∷ b3 ∷ b4 ∷ b5 ∷ rest))) _
        (shoul_tune codec _ _) (ground arith)
  fec_decode-Yields clock [] dec h l = absurd (omega arith)
  fec_decode-Yields clock (b0 ∷ []) dec h l = absurd (omega arith)
  fec_decode-Yields clock (b0 ∷ b1 ∷ []) dec h l = absurd (omega arith)
  fec_decode-Yields clock (b0 ∷ b1 ∷ b2 ∷ []) dec h l = absurd (omega arith)
  fec_decode-Yields clock (b0 ∷ b1 ∷ b2 ∷ b3 ∷ []) dec h l = absurd (omega arith)
  fec_decode-Yields clock (b0 ∷ b1 ∷ b2 ∷ b3 ∷ b4 ∷ []) dec h l = absurd (omega arith)
