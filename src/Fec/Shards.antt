-- ===== src/Fec/Shards.antt =====
-- The packets that the decoder of network/kcp/fec.go keeps, and the searches over them.
use emt.Common.{
  ℕ, zero, suc, ◌+◌, ◌%◌, Option, none, some, List, [], ◌∷◌, ◌++◌, take, drop, set, length,
  replicate, ltb, ◌==◌, if◌then◌else◌,
}
use emt.Word.{pos, ltb_ℤ, leb_ℤ}
use emt.Kcp.Window.{itimediff}
use emt.Fec.Packet.{FecPacket, is_data, expire}
use emt.Fec.Encoder.{pad}

-- `fecElement`: a packet and the time when it came.
pub record Element : Type 0 where
  pub packet : FecPacket
  pub ts : ℕ

-- What the search of `fecNestif` collects: the shards by their places, `numshard`, `numDataShard`,
-- `first` and `maxlen`.
pub record Found : Type 0 where
  pub shards : List (Option (List ℕ))
  pub count : ℕ
  pub data_count : ℕ
  pub first : ℕ
  pub max_len : ℕ

abbrev pub found_none : ℕ → Found
found_none size = record {
  shards = replicate size none;
  count = 0;
  data_count = 0;
  first = 0;
  max_len = 0;
}

-- One shard of the group, at the index `i` of `rx`.
unfoldable pub add_shard : ℕ → ℕ → FecPacket → Found → Found
add_shard size i p f = record {
  shards = set f.shards (p.seqid % size) (some p.payload);
  count = f.count + 1;
  data_count = if is_data p then f.data_count + 1 else f.data_count;
  first = if f.count == 0 then i else f.first;
  max_len = if ltb f.max_len (length p.payload) then length p.payload else f.max_len;
}

-- The loop of `fecNestif` over `rx[searchBegin..searchEnd]`, at the index `i`.
unfoldable pub search_shards : ℕ → ℕ → ℕ → ℕ → List Element → Found → Found
unfolding add_shard
search_shards size begin end i [] f = f
search_shards size begin end i (e ∷ es) f =
    let inside = leb_ℤ (pos 0) (itimediff e.packet.seqid begin) in
    let rest =
      search_shards size begin end (i + 1) es (if inside then add_shard size i e.packet f else f) in
    if ltb_ℤ (pos 0) (itimediff e.packet.seqid end) then f else rest

-- The shards as `ReconstructData` takes them: those that came, filled up with zeros, and nothing
-- for the others.
unfoldable pub fill_shards : ℕ → List (Option (List ℕ)) → List (List ℕ)
fill_shards max_len [] = []
fill_shards max_len (none ∷ ss) = [] ∷ fill_shards max_len ss
fill_shards max_len (some s ∷ ss) = pad max_len s ∷ fill_shards max_len ss

-- The first `n` shards that had not come, out of those that the codec returned.
unfoldable pub pick_recovered : ℕ → List (Option (List ℕ)) → List (List ℕ) → List (List ℕ)
pick_recovered zero flags shards = []
pick_recovered (suc n) (none ∷ flags) (s ∷ shards) = s ∷ pick_recovered n flags shards
pick_recovered (suc n) (some _ ∷ flags) (s ∷ shards) = pick_recovered n flags shards
pick_recovered (suc n) _ _ = []

-- `freeRange`: the list without `n` elements from `first` on.
unfoldable pub free_range : ℕ → ℕ → List Element → List Element
free_range first n q = take first q ++ drop (first + n) q

-- Where a packet goes: it is there already, or behind so many elements.
pub data Place : Type 0 where
  repeated : Place
  unplaced : Place
  behind : ℕ → Place

-- The loop from the back of `rx` that finds `insertIdx`.
unfoldable pub find_place : ℕ → List Element → Place
find_place seqid [] = unplaced
find_place seqid (e ∷ es) = elim (find_place seqid es) [
  | repeated ↦ repeated
  | behind n ↦ behind (suc n)
  | unplaced ↦
      if seqid == e.packet.seqid
      then repeated
      else if ltb_ℤ (pos 0) (itimediff seqid e.packet.seqid)
      then behind 1
      else unplaced
]

-- `numExpired`.
unfoldable pub count_expired : ℕ → List Element → ℕ
count_expired now [] = 0
count_expired now (e ∷ es) =
    let rest = suc (count_expired now es) in
    if ltb_ℤ (pos expire) (itimediff now e.ts) then rest else 0
