-- ===== src/Kcp/Codec/RoundTrip.antt =====
-- Reading a header back, and when a header can be read.
use emt.Common.{
  ℕ, ◌+◌, ◌^◌, ◌≤◌, ◌<◌, ◌≡◌, refl, some, List, [], ◌∷◌, ◌++◌, append_assoc, length, All, arith,
}
use emt.Word.{IsU32, IsByte}
use emt.Kcp.State.{Segment}
use emt.Kcp.Codec.{header, Header, decode_header}

-- The fields of a segment are in the range of their Go types.
pub record IsEncodable (s : Segment) : Type 0 where
  pub conv : IsU32 s.conv
  pub cmd : IsByte s.cmd
  pub frg : IsByte s.frg
  pub wnd : s.wnd < 2 ^ 16
  pub ts : IsU32 s.ts
  pub sn : IsU32 s.sn
  pub una : IsU32 s.una
  pub len : IsU32 (length s.payload)

abbrev pub header_of : Segment → Header
header_of s = record {
  conv = s.conv;
  cmd = s.cmd;
  frg = s.frg;
  wnd = s.wnd;
  ts = s.ts;
  sn = s.sn;
  una = s.una;
  len = length s.payload;
}

pub header-append : (s : Segment) (p : List ℕ) → header s p ≡ p ++ header s []
unfolding header
header-append s p = simp append_assoc

pub length-header : (s : Segment) → length (header s []) ≡ 24
unfolding header
length-header s = refl

-- A header whose fields have the ranges of their Go types is decoded to the same fields, and what
-- follows it is left.
pub decode_header-header :
    (s : Segment) (rest : List ℕ)
    → IsEncodable s
    → decode_header (header s [] ++ rest) ≡ some (header_of s, rest)
unfolding header decode_header
decode_header-header s rest v = ground arith

-- The fields of a header that was read have the ranges of their Go types.
pub record IsWire (h : Header) : Type 0 where
  pub conv : IsU32 h.conv
  pub cmd : IsByte h.cmd
  pub frg : IsByte h.frg
  pub wnd : h.wnd < 2 ^ 16
  pub ts : IsU32 h.ts
  pub sn : IsU32 h.sn
  pub una : IsU32 h.una
  pub len : IsU32 h.len

pub decode_header-IsWire :
    (p : List ℕ)
    → All IsByte p
    → 24 ≤ length p
    → (h : Header) × (rest : List ℕ) × (decode_header p ≡ some (h, rest))
      × (length rest + 24 ≡ length p)
      × IsWire h
      × All IsByte rest
unfolding decode_header
decode_header-IsWire
      (b0 ∷ b1 ∷ b2 ∷ b3 ∷ b4 ∷ b5 ∷ b6 ∷ b7 ∷ b8 ∷ b9 ∷ b10 ∷ b11 ∷ b12 ∷ b13 ∷ b14 ∷ b15 ∷ b16
        ∷ b17 ∷ b18 ∷ b19 ∷ b20 ∷ b21 ∷ b22 ∷ b23 ∷ rest)
      b h =
    (_, rest, refl, omega arith, omega arith, b.1.1.1.1.1.1.1.1.1.1.1.1.1.1.1.1.1.1.1.1.1.1.1.1)
decode_header-IsWire _ b h = absurd (omega arith)
