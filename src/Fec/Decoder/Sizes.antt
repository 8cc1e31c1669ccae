-- ===== src/Fec/Decoder/Sizes.antt =====
-- The packets that the decoder of network/kcp/fec.go keeps, and those that it recovers, fit a buffer.
use emt.Common.{
  ℕ, zero, suc, ◌+◌, ◌-◌, ◌%◌, ◌≤◌, ◌≡◌, refl, inl, inr, Bool, true, false, not, ◌&&◌, ◌||◌, Option,
  none, some, List, [], ◌∷◌, take, drop, set, insert_at, replicate, length, length-append,
  length-replicate, arith, ltb, leb, ◌==◌, Bool-cases, All, All-append, All-take, All-drop,
  if◌then◌else◌,
}
use emt.Word.{ℤ, pos_part, pos, ltb_ℤ, leb_ℤ, add32, sub32}
use emt.Kcp.Ack.{Clock}
use emt.Kcp.Codec.{decode32u, decode16u}
use emt.Kcp.Window.{itimediff}
use emt.Fec.Packet.{FecPacket, read_packet, ReedSolomon, mtu_limit}
use emt.Fec.Encoder.{pad}
use emt.Fec.Tune.{find_period}
use emt.Fec.Decoder.{
  in_range, should_tune, Decoder, fec_nestif, shoul_tune, retune, search_range, recover, limit_rx,
  expire_rx, decode_at, decode_packet, fec_decode,
}
use emt.Fec.Shards.{
  Element, Found, found_none, add_shard, search_shards, fill_shards, pick_recovered, free_range,
  Place, repeated, unplaced, behind, find_place,
}

-- No longer than a buffer of the pool.
abbrev pub Fits : List ℕ → Type 0
Fits bytes = length bytes ≤ mtu_limit

-- What `ReconstructData` returns is no longer than the longest of the shards that it was given.
abbrev pub KeepsSize : ReedSolomon → Type 0
KeepsSize codec =
    (d p n : ℕ) (shards out : List (List ℕ))
    → All (λ s. length s ≤ n) shards
    → codec.reconstruct d p shards ≡ some out
    → All (λ s. length s ≤ n) out

abbrev pub FitsElement : Element → Type 0
FitsElement e = Fits e.packet.payload

-- Each packet that the decoder keeps fits a buffer.
abbrev pub AreKept : Decoder → Type 0
AreKept dec = All FitsElement dec.rx

abbrev FitsShard : Option (List ℕ) → Type 0
FitsShard none = Unit
FitsShard (some s) = Fits s

record IsFound (f : Found) : Type 0 where
  shards : All FitsShard f.shards
  longest : f.max_len ≤ mtu_limit

All-replicate-none : (n : ℕ) → All FitsShard (replicate n none)
All-replicate-none zero = tt
All-replicate-none (suc n) = (tt, All-replicate-none n)

All-set :
    (ss : List (Option (List ℕ))) (i : ℕ) (s : List ℕ)
    → Fits s
    → All FitsShard ss
    → All FitsShard (set ss i (some s))
All-set [] i s h k = tt
All-set (x ∷ ss) zero s h (k, ks) = (h, ks)
All-set (x ∷ ss) (suc i) s h (k, ks) = (k, All-set ss i s h ks)

add_shard-IsFound :
    (size i : ℕ) (p : FecPacket) (f : Found)
    → Fits p.payload
    → IsFound f
    → IsFound (add_shard size i p f)
unfolding add_shard
add_shard-IsFound size i p f h v = record {
  shards = All-set f.shards (p.seqid % size) p.payload h v.shards;
  longest = ground (arith, h, v.longest);
}

either-IsFound : (b : Bool) (f f' : Found) → IsFound f → IsFound f' → IsFound (if b then f else f')
either-IsFound true f f' v v' = v
either-IsFound false f f' v v' = v'

search_shards-IsFound :
    (size begin end i : ℕ) (es : List Element) (f : Found)
    → All FitsElement es
    → IsFound f
    → IsFound (search_shards size begin end i es f)
unfolding search_shards
search_shards-IsFound size begin end i [] f h v = v
search_shards-IsFound size begin end i (e ∷ es) f (h, hs) v =
    let inside = leb_ℤ (pos 0) (itimediff e.packet.seqid begin) in
    either-IsFound (ltb_ℤ (pos 0) (itimediff e.packet.seqid end)) f _ v (
      search_shards-IsFound size begin end (i + 1) es _ hs
        (either-IsFound inside _ f (add_shard-IsFound size i e.packet f h v) v))

fill_shards-Fits :
    (n : ℕ) (ss : List (Option (List ℕ)))
    → n ≤ mtu_limit
    → All FitsShard ss
    → All (λ s. length s ≤ mtu_limit) (fill_shards n ss)
unfolding fill_shards
fill_shards-Fits n [] l h = tt
fill_shards-Fits n (none ∷ ss) l (h, hs) = (omega arith, fill_shards-Fits n ss l hs)
fill_shards-Fits n (some s ∷ ss) l (h, hs) = (padded, fill_shards-Fits n ss l hs)
  where
    padded : length (pad n s) ≤ mtu_limit
    padded = omega (
      arith,
      length-append s (replicate (n - length s) 0),
      length-replicate {A = ℕ} (n - length s) 0,
    )

pick_recovered-Fits :
    (n : ℕ) (flags : List (Option (List ℕ))) (shards : List (List ℕ))
    → All Fits shards
    → All Fits (pick_recovered n flags shards)
unfolding pick_recovered
pick_recovered-Fits zero flags shards h = tt
pick_recovered-Fits (suc n) [] shards h = tt
pick_recovered-Fits (suc n) (none ∷ flags) [] h = tt
pick_recovered-Fits (suc n) (some f ∷ flags) [] h = tt
pick_recovered-Fits (suc n) (none ∷ flags) (s ∷ shards) (h, hs) =
    (h, pick_recovered-Fits n flags shards hs)
pick_recovered-Fits (suc n) (some f ∷ flags) (s ∷ shards) (h, hs) =
    pick_recovered-Fits n flags shards hs

reconstructed-Fits :
    (n : ℕ) (flags : List (Option (List ℕ))) (answer : Option (List (List ℕ)))
    → ((out : List (List ℕ)) → answer ≡ some out → All Fits out)
    → All Fits (elim answer [ none ↦ [] | some shards ↦ pick_recovered n flags shards ])
reconstructed-Fits n flags none h = tt
reconstructed-Fits n flags (some out) h = pick_recovered-Fits n flags out (h out refl)

free_range-Fits :
    (first n : ℕ) (q : List Element) → All FitsElement q → All FitsElement (free_range first n q)
unfolding free_range
free_range-Fits first n q h =
    All-append FitsElement (take first q) _ (All-take FitsElement first q h)
      (All-drop FitsElement (first + n) q h)

insert_at-Fits :
    (i : ℕ) (e : Element) (q : List Element)
    → FitsElement e
    → All FitsElement q
    → All FitsElement (insert_at i e q)
insert_at-Fits zero e q h k = (h, k)
insert_at-Fits (suc i) e [] h k = (h, tt)
insert_at-Fits (suc i) e (x ∷ q) h (k, ks) = (k, insert_at-Fits i e q h ks)

-- Packets that fit, and a decoder whose packets do.
abbrev pub AllFit : List (List ℕ) × Decoder → Type 0
AllFit (rs, dec) = All Fits rs × AreKept dec

abbrev pub AllFits : Option (List (List ℕ) × Decoder) → Type 0
AllFits none = Unit
AllFits (some r) = AllFit r

module _ (codec : ReedSolomon) (sized : KeepsSize codec) where
  fec_nestif-AllFit :
      (begin end shard_end shard_begin : ℕ) (dec : Decoder)
      → AreKept dec
      → AllFit (fec_nestif codec begin end shard_end shard_begin dec)
  unfolding fec_nestif
  fec_nestif-AllFit begin end shard_end shard_begin dec v =
      let range = take (end + 1 - begin) (drop begin dec.rx) in
      let f =
        search_shards dec.shard_size shard_begin shard_end begin range
          (found_none dec.shard_size) in
      let found : IsFound f =
        search_shards-IsFound dec.shard_size shard_begin shard_end begin range _
          (All-take FitsElement (end + 1 - begin) _ (All-drop FitsElement begin dec.rx v))
          (record { shards = All-replicate-none dec.shard_size; longest = omega arith }) in
      let freed = free_range-Fits f.first f.count dec.rx v in
      elim (Bool-cases (f.data_count == dec.data_shards)) [
        | inl whole ↦ rw whole (tt, freed)
        | inr lost ↦ elim (Bool-cases (leb dec.data_shards f.count)) [
          | inl enough ↦
              rw (lost, enough)
                (
                  reconstructed-Fits dec.data_shards f.shards _ (λ out e.
                      sized dec.data_shards dec.parity_shards mtu_limit _ out
                        (fill_shards-Fits f.max_len f.shards found.longest found.shards) e),
                  freed,
                )
          | inr few ↦ rw (lost, few) (tt, v)
        ]
      ]

  recover-AllFit :
      (p : FecPacket) (idx : ℕ) (dec : Decoder) → AreKept dec → AllFit (recover codec p idx dec)
  unfolding recover
  recover-AllFit p idx dec v =
      let shard_begin = sub32 p.seqid (p.seqid % dec.shard_size) in
      let shard_end = sub32 (add32 shard_begin dec.shard_size) 1 in
      let (begin, end) = search_range p idx dec in
      elim (Bool-cases (leb dec.data_shards (end + 1 - begin))) [
        | inl enough ↦ rw enough (fec_nestif-AllFit begin end shard_end shard_begin dec v)
        | inr few ↦ rw few (tt, v)
      ]

  limit_rx-AreKept : (dec : Decoder) → AreKept dec → AreKept (limit_rx dec)
  unfolding limit_rx
  limit_rx-AreKept dec v = elim (Bool-cases (ltb dec.rxlimit (length dec.rx))) [
    | inl over ↦ rw over (free_range-Fits 0 1 dec.rx v)
    | inr few ↦ rw few v
  ]

  decode_at-AllFit :
      (clock : Clock) (p : FecPacket) (idx : ℕ) (dec : Decoder)
      → Fits p.payload
      → AreKept dec
      → AllFit (decode_at codec clock p idx dec)
  unfolding decode_at expire_rx
  decode_at-AllFit clock p idx dec h v =
      let (rs, kept) = recover-AllFit p idx _ (insert_at-Fits idx _ dec.rx h v) in
      (rs, free_range-Fits 0 _ _ (limit_rx-AreKept _ kept))

  place-AllFits :
      (clock : Clock) (p : FecPacket) (b : Bool) (dec : Decoder) (place : Place)
      → Fits p.payload
      → AreKept dec
      → AllFits (elim place [
        | repeated ↦ some ([], dec)
        | unplaced ↦ if b then none else some (decode_at codec clock p 0 dec)
        | behind n ↦ if b then none else some (decode_at codec clock p n dec)
      ])
  place-AllFits clock p b dec repeated h v = (tt, v)
  place-AllFits clock p true dec unplaced h v = tt
  place-AllFits clock p false dec unplaced h v = decode_at-AllFit clock p 0 dec h v
  place-AllFits clock p true dec (behind n) h v = tt
  place-AllFits clock p false dec (behind n) h v = decode_at-AllFit clock p n dec h v

  AreTuned : Option Decoder → Type 0
  AreTuned none = Unit
  AreTuned (some dec) = AreKept dec

  either-AreTuned :
      (b : Bool) (o o' : Option Decoder) → AreTuned o → AreTuned o' → AreTuned (if b then o else o')
  either-AreTuned true o o' h h' = h
  either-AreTuned false o o' h h' = h'

  retune-AreKept : (ds ps : ℤ) (dec : Decoder) → AreKept dec → AreKept (retune ds ps dec)
  unfolding retune
  retune-AreKept ds ps dec v =
      let d = pos_part ds in
      let p = pos_part ps in
      elim (Bool-cases (
        in_range ds
        && in_range ps
        && (not (d == dec.data_shards) || not (p == dec.parity_shards)))) [
          | inl other ↦ rw other v
          | inr same ↦ rw same v
        ]

  shoul_tune-AreTuned :
      (p : FecPacket) (dec : Decoder) → AreKept dec → AreTuned (shoul_tune codec p dec)
  unfolding shoul_tune AreTuned
  shoul_tune-AreTuned p dec v =
      let ds = find_period true dec.tune in
      let ps = find_period false dec.tune in
      let bad =
        leb_ℤ ds (pos 0) || leb_ℤ ps (pos 0) || not (codec.accepts (pos_part ds) (pos_part ps)) in
      either-AreTuned (not (should_tune p dec)) (some dec)
        (if bad then none else some (retune ds ps dec)) v
        (either-AreTuned bad none (some (retune ds ps dec)) tt (retune-AreKept ds ps dec v))

  tuned-AllFits :
      (clock : Clock) (p : FecPacket) (b : Bool) (sampled : Decoder) (tuned : Option Decoder)
      → Fits p.payload
      → AreKept sampled
      → AreTuned tuned
      → AllFits
          (elim tuned [ none ↦ some ([], sampled) | some dec ↦ decode_packet codec clock b p dec ])
  unfolding AreTuned decode_packet
  tuned-AllFits clock p b sampled none h v w = (tt, v)
  tuned-AllFits clock p b sampled (some dec) h v w =
      place-AllFits clock p b dec (find_place p.seqid dec.rx) h w

  -- With a decoder whose packets fit a buffer, and a packet that does: what is recovered fits one, and
  -- so do the packets that are kept then.
  pub fec_decode-AllFits :
      (clock : Clock) (bytes : List ℕ) (dec : Decoder)
      → length bytes ≤ mtu_limit
      → AreKept dec
      → AllFits (fec_decode codec clock bytes dec)
  unfolding fec_decode read_packet decode32u decode16u
  fec_decode-AllFits clock (b0 ∷ b1 ∷ b2 ∷ b3 ∷ b4 ∷ b5 ∷ rest) dec l v =
      tuned-AllFits clock _ (ltb mtu_limit (length (b0 ∷ b1 ∷ b2 ∷ b3 ∷ b4 ∷ b5 ∷ rest))) _
        (shoul_tune codec _ _) (omega arith) v (shoul_tune-AreTuned _ _ v)
  fec_decode-AllFits clock [] dec l v = tt
  fec_decode-AllFits clock (b0 ∷ []) dec l v = tt
  fec_decode-AllFits clock (b0 ∷ b1 ∷ []) dec l v = tt
  fec_decode-AllFits clock (b0 ∷ b1 ∷ b2 ∷ []) dec l v = tt
  fec_decode-AllFits clock (b0 ∷ b1 ∷ b2 ∷ b3 ∷ []) dec l v = tt
  fec_decode-AllFits clock (b0 ∷ b1 ∷ b2 ∷ b3 ∷ b4 ∷ []) dec l v = tt
