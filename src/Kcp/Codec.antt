-- ===== src/Kcp/Codec.antt =====
-- The byte codec of network/kcp/kcp.go: fixed-width little-endian fields and the segment header.
-- An encoder appends to what is already written, where the Go code advances the slice `p`; a decoder
-- gives the value and the rest of the slice, `none` where the slice is too short and Go panics.
pub mod RoundTrip
use emt.Common.{ℕ, suc, ◌+◌, ◌*◌, ◌/◌, ◌%◌, ◌^◌, Option, none, some, List, [], ◌∷◌, ◌++◌, length}
use emt.Word.{u32_mod}
use emt.Kcp.State.{Segment}

unfoldable pub encode8u : List ℕ → ℕ → List ℕ
encode8u p c = p ++ (c ∷ [])

unfoldable pub encode16u : List ℕ → ℕ → List ℕ
encode16u p w = p ++ ((w % 256) ∷ (w / 256 % 256) ∷ [])

unfoldable pub encode32u : List ℕ → ℕ → List ℕ
encode32u p l = p ++ ((l % 256) ∷ (l / 256 % 256) ∷ (l / 65536 % 256) ∷ (l / 16777216 % 256) ∷ [])

unfoldable pub decode8u : List ℕ → Option (ℕ × List ℕ)
decode8u (c ∷ p) = some (c, p)
decode8u [] = none

unfoldable pub decode16u : List ℕ → Option (ℕ × List ℕ)
decode16u (a ∷ b ∷ p) = some (a + b * 256, p)
decode16u _ = none

unfoldable pub decode32u : List ℕ → Option (ℕ × List ℕ)
decode32u (a ∷ b ∷ c ∷ d ∷ p) = some (a + b * 256 + c * 65536 + d * 16777216, p)
decode32u _ = none

-- The bytes of a header: the part of `segment.encode` that writes.
unfoldable pub header : Segment → List ℕ → List ℕ
unfolding encode8u encode16u encode32u
header s p0 =
    let p1 = encode32u p0 s.conv in
    let p2 = encode8u p1 s.cmd in
    let p3 = encode8u p2 s.frg in
    let p4 = encode16u p3 s.wnd in
    let p5 = encode32u p4 s.ts in
    let p6 = encode32u p5 s.sn in
    let p7 = encode32u p6 s.una in encode32u p7 (length s.payload % u32_mod)

-- What `Input` reads from the front of its data.
pub record Header : Type 0 where
  pub conv : ℕ
  pub cmd : ℕ
  pub frg : ℕ
  pub wnd : ℕ
  pub ts : ℕ
  pub sn : ℕ
  pub una : ℕ
  pub len : ℕ

infixl 5 ◌>>=◌
abbrev pub ◌>>=◌ {ℓ κ} : {A : Type ℓ} {B : Type κ} → Option A → (A → Option B) → Option B
none >>= f = none
some a >>= f = f a

unfoldable pub decode_header : List ℕ → Option (Header × List ℕ)
unfolding decode8u decode16u decode32u
decode_header p0 = do
  (conv, p1) ← decode32u p0
  (cmd, p2) ← decode8u p1
  (frg, p3) ← decode8u p2
  (wnd, p4) ← decode16u p3
  (ts, p5) ← decode32u p4
  (sn, p6) ← decode32u p5
  (una, p7) ← decode32u p6
  (len, p8) ← decode32u p7
  some (
    record { conv = conv; cmd = cmd; frg = frg; wnd = wnd; ts = ts; sn = sn; una = una; len = len },
    p8,
  )
