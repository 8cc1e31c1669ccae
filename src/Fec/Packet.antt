-- ===== src/Fec/Packet.antt =====
-- The packets of network/kcp/fec.go, their numbers and kinds, and the codec that the shards go
-- through.
use emt.Common.{ℕ, Bool, Option, none, some, List, [], ◌==◌}
use emt.Kcp.Codec.{encode16u, encode32u, decode16u, decode32u}

-- `fecHeaderSize`.
abbrev pub header_size : ℕ
header_size = 6

-- `typeData`.
abbrev pub type_data : ℕ
type_data = 241

-- `typeParity`.
abbrev pub type_parity : ℕ
type_parity = 242

-- `fecExpire`.
abbrev pub expire : ℕ
expire = 60000

-- `rxFECMulti`.
abbrev pub rx_multi : ℕ
rx_multi = 3

-- `mtuLimit`, the size of the buffers of the pool.
abbrev pub mtu_limit : ℕ
mtu_limit = 1500

-- What `seqid`, `flag` and `data` read of a packet.
pub record FecPacket : Type 0 where
  pub seqid : ℕ
  pub flag : ℕ
  pub payload : List ℕ

-- `none` where they read past the end, and Go panics.
unfoldable pub read_packet : List ℕ → Option FecPacket
unfolding decode32u decode16u
read_packet bytes = elim (decode32u bytes) [
  | none ↦ none
  | some (seqid, bytes') ↦ elim (decode16u bytes') [
    | none ↦ none
    | some (flag, payload) ↦ some (record { seqid = seqid; flag = flag; payload = payload })
  ]
]

abbrev pub is_data : FecPacket → Bool
is_data p = p.flag == type_data

-- The six bytes that `markData` and `markParity` write.
unfoldable pub mark : ℕ → ℕ → List ℕ
mark seqid flag = encode16u (encode32u [] seqid) flag

-- github.com/klauspost/reedsolomon, for given numbers of data and parity shards: whether `New`
-- makes a codec, the parity shards that `Encode` makes of the data shards, and what
-- `ReconstructData` makes of the shards, the missing ones empty. `none` is an error.
pub record ReedSolomon : Type 0 where
  pub accepts : ℕ → ℕ → Bool
  pub parity : ℕ → ℕ → List (List ℕ) → Option (List (List ℕ))
  pub reconstruct : ℕ → ℕ → List (List ℕ) → Option (List (List ℕ))
