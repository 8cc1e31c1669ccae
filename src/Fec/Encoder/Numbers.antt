-- ===== src/Fec/Encoder/Numbers.antt =====
-- The packet numbers of the encoder of network/kcp/fec.go, and what the decoder makes of them.
use native.Mathlib.Nat.{mod-eq_of_lt, mod_self, suc-mul, mul-le-mul_right}
use emt.Common.{
  ℕ, suc, ◌+◌, ◌-◌, ◌*◌, ◌%◌, ◌≤◌, ◌<◌, ◌≡◌, refl, ap, subst, sym, ◌∙◌, inl, inr, Bool, true, false,
  Option, none, some, List, [], ◌∷◌, drop, map, length, length-append, arith, ◌==◌, Bool-cases,
  if◌then◌else◌,
}
use emt.Word.{u32_mod, add32}
use emt.Kcp.Codec.{encode16u}
use emt.Fec.Packet.{ReedSolomon, type_data, mark}
use emt.Fec.Encoder.{
  Encoder, shard_count, mark_data, mark_parity, mark_shards, add_packet, close_group, pad,
  encode_packet, write_at,
}

-- The next number is that of the place `c` in a group, and the group lies before the wrap.
pub record IsPlaced (enc : Encoder) (c : ℕ) : Type 0 where
  pub size : enc.shard_size ≡ enc.data_shards + enc.parity_shards
  pub groups : ℕ
  pub paws : enc.paws ≡ groups * enc.shard_size
  pub small : enc.paws < u32_mod
  pub group : ℕ
  pub next : enc.next ≡ group * enc.shard_size + c
  pub before : group < groups
  pub parity : 0 < enc.parity_shards

-- Between two packets: the next number is that of the next data shard.
pub record IsCounted (enc : Encoder) : Type 0 where
  pub placed : IsPlaced enc (shard_count enc)
  pub count : shard_count enc < enc.data_shards

-- Numbers that have not come to the end go up by one, and the last one goes to 0.
abbrev pub wrapped : ℕ → ℕ → ℕ
wrapped paws n = if n == paws then 0 else n

pub next_parity : (n paws : ℕ) → n < paws → paws < u32_mod → add32 n 1 % paws ≡ wrapped paws (n + 1)
unfolding add32
next_parity n paws h hp =
    let small : (n + 1) % u32_mod ≡ n + 1 = omega arith in
    elim (Bool-cases ((n + 1) == paws)) [
      | inl last ↦ let e : n + 1 ≡ paws = ground arith in rw (small, last, e) (mod_self paws)
      | inr more ↦ rw (small, more) (mod-eq_of_lt (ground arith))
    ]

-- The numbers of the parity shards follow each other.
mark_shards_lem :
    (enc : Encoder) (ss : List (List ℕ))
    → enc.next < enc.paws
    → enc.next + length ss ≤ enc.paws
    → enc.paws < u32_mod
    → (mark_shards enc ss).1 ≡ record enc { next = wrapped enc.paws (enc.next + length ss) }
unfolding mark_shards
mark_shards_lem enc [] h hl hp = ap (λ n. record enc { next = n }) (unmoved enc.next enc.paws h)
  where
    unmoved : (n paws : ℕ) → n < paws → n ≡ wrapped paws (n + 0)
    unmoved n paws h = ground arith
mark_shards_lem enc (s ∷ []) h hl hp =
    ap (λ n. record enc { next = n }) (next_parity enc.next enc.paws h hp)
mark_shards_lem enc (s ∷ t ∷ ts) h hl hp =
    rw (next_parity enc.next enc.paws h hp, inner enc.next enc.paws (length ts) hl)
      (mark_shards_lem (record enc { next = enc.next + 1 }) (t ∷ ts) (omega (arith, hl))
          (omega (arith, hl)) hp
        ∙ ap (λ n. record enc { next = wrapped enc.paws n }) (omega arith))
  where
    inner : (n paws l : ℕ) → n + suc (suc l) ≤ paws → wrapped paws (n + 1) ≡ n + 1
    inner n paws l hl = ground arith

pub length-mark_shards :
    (enc : Encoder) (ss : List (List ℕ)) → length (mark_shards enc ss).0 ≡ length ss
unfolding mark_shards
length-mark_shards enc [] = refl
length-mark_shards enc (s ∷ ss) = ap suc (length-mark_shards (mark_parity enc).1 ss)

-- The place of a group before the last one.
group_room : (g m s : ℕ) → g < m → g * s + s ≤ m * s
group_room g m s h = rw (← suc-mul g s) (mul-le-mul_right s h)

-- A group that is whole ends where the next one begins, or at the wrap.
next_group : (g m s : ℕ) → g < m → (g' : ℕ) × (wrapped (m * s) (g * s + s) ≡ g' * s + 0) × (g' < m)
next_group g m s h = elim (Bool-cases ((g * s + s) == (m * s))) [
  | inl last ↦ rw last (0, omega arith, omega (arith, h))
  | inr more ↦ rw more (suc g, omega (arith, suc-mul g s), ground (arith, suc-mul g s, before_end))
]
  where
    before_end : suc g ≡ m → g * s + s ≡ m * s
    before_end e = sym (suc-mul g s) ∙ ap (λ n. n * s) e

-- In a group there is room for what is left of it.
pub room : (enc : Encoder) (c : ℕ) → IsPlaced enc c → enc.next + enc.shard_size ≤ enc.paws + c
room enc c v = omega (arith, v.next, v.paws, group_room v.group v.groups enc.shard_size v.before)

-- The number and the place go up together.
up-IsPlaced :
    (enc : Encoder) (c size : ℕ) (cache : List (List ℕ))
    → c < enc.shard_size
    → IsPlaced enc c
    → IsPlaced
        (record enc { next = add32 enc.next 1; max_size = size; shard_cache = cache })
        (c + 1)
unfolding add32
up-IsPlaced enc c size cache h v =
    let r = room enc c v in
    record {
      size = v.size;
      groups = v.groups;
      paws = v.paws;
      small = v.small;
      group = v.group;
      next = omega (arith, v.next, v.small, r, h);
      before = v.before;
      parity = v.parity;
    }

-- Behind the parity shards a group begins.
parity-IsCounted :
    (enc : Encoder) (parities : List (List ℕ))
    → 0 < enc.data_shards
    → length parities ≡ enc.parity_shards
    → IsPlaced enc enc.data_shards
    → IsCounted (record (mark_shards enc parities).1 { max_size = 0; shard_cache = [] })
parity-IsCounted enc parities h len v =
    let r = room enc enc.data_shards v in
    let e =
      mark_shards_lem enc parities (omega (arith, r, v.size, v.parity))
        (omega (arith, r, v.size, len)) v.small in
    let (g', eg, before') = next_group v.group v.groups enc.shard_size v.before in
    let total : enc.next + length parities ≡ v.group * enc.shard_size + enc.shard_size =
      omega (arith, v.next, len, v.size) in
    let next' : wrapped enc.paws (enc.next + length parities) ≡ g' * enc.shard_size + 0 =
      rw (total, v.paws) eg in
    rw e (record {
      placed = record {
        size = v.size;
        groups = v.groups;
        paws = v.paws;
        small = v.small;
        group = g';
        next = next';
        before = before';
        parity = v.parity;
      };
      count = h;
    })

close_group-IsCounted :
    (codec : ReedSolomon) (enc : Encoder)
    → 0 < enc.data_shards
    → IsPlaced enc enc.data_shards
    → length (close_group codec enc).0 ≡ enc.parity_shards
    → IsCounted (close_group codec enc).1
unfolding close_group
close_group-IsCounted codec enc h v = closed (
    codec.parity enc.data_shards enc.parity_shards
      (map (pad (enc.max_size - enc.payload_offset)) enc.shard_cache))
  where
    closed :
        (o : Option (List (List ℕ)))
        → let r : List (List ℕ) × Encoder = elim o [
          | none ↦ ([], record enc { max_size = 0; shard_cache = [] })
          | some parities ↦
              let (ps, enc') = mark_shards enc parities in
              (ps, record enc' { max_size = 0; shard_cache = [] })
        ] in
          length r.0 ≡ enc.parity_shards → IsCounted r.1
    closed none len = absurd (omega (arith, len, v.parity))
    closed (some parities) len =
        parity-IsCounted enc parities h (sym (length-mark_shards enc parities) ∙ len) v

pub add_packet-IsPlaced :
    (b : List ℕ) (enc : Encoder)
    → IsCounted enc
    → let enc' = (add_packet b enc).1 in
      IsPlaced enc' (shard_count enc')
      × (shard_count enc' ≡ suc (shard_count enc))
      × (enc'.data_shards ≡ enc.data_shards)
      × (enc'.parity_shards ≡ enc.parity_shards)
unfolding add_packet mark_data
add_packet-IsPlaced b enc v =
    let size = (length b - enc.payload_offset) % 65536 in
    let packet =
      write_at enc.payload_offset (encode16u [] size)
        (write_at enc.header_offset (mark enc.next type_data) b) in
    let len = length-append enc.shard_cache (drop enc.payload_offset packet ∷ []) in
    let up =
      up-IsPlaced enc (shard_count enc) _ _ (omega (arith, v.count, v.placed.size)) v.placed in
    rw len (up, omega arith, refl, refl)

-- The result of the last part, whole or not.
last-IsCounted :
    (codec : ReedSolomon) (enc : Encoder)
    → 0 < shard_count enc
    → shard_count enc ≤ enc.data_shards
    → IsPlaced enc (shard_count enc)
    → let whole = shard_count enc == enc.data_shards in
      let (ps, enc') = (if whole then close_group codec enc else ([], enc)) in
      length ps ≡ (if whole then enc.parity_shards else 0) → IsCounted enc'
last-IsCounted codec enc h0 h v = by_case (shard_count enc == enc.data_shards) refl
  where
    by_case :
        (whole : Bool)
        → (shard_count enc == enc.data_shards) ≡ whole
        → let (ps, enc') = (if whole then close_group codec enc else ([], enc)) in
          length ps ≡ (if whole then enc.parity_shards else 0) → IsCounted enc'
    by_case true e len =
        let same : shard_count enc ≡ enc.data_shards = ground arith in
        close_group-IsCounted codec enc (omega (arith, h0, same)) (subst (IsPlaced enc) same v) len
    by_case false e len = record { placed = v; count = ground arith }

-- A packet that is encoded takes the number of its place: if the codec makes the parity shards of a
-- group that is whole, then behind any packet the next number is again that of the next data shard,
-- also where the numbers start from 0 again.
pub encode_packet-IsCounted :
    (codec : ReedSolomon) (b : List ℕ) (enc : Encoder)
    → IsCounted enc
    → let (packet, ps, enc') = encode_packet codec b enc in
      length ps ≡ (if suc (shard_count enc) == enc.data_shards then enc.parity_shards else 0)
      → IsCounted enc'
unfolding encode_packet
encode_packet-IsCounted codec b enc v len =
    let (placed, count, same_data, same_parity) = add_packet-IsPlaced b enc v in
    last-IsCounted codec (add_packet b enc).1 (omega (arith, count))
      (omega (arith, count, same_data, v.count)) placed
      (len ∙ sym (same_made count same_data same_parity))
  where
    same_made :
        {c c' d d' p p' : ℕ}
        → c ≡ c'
        → d ≡ d'
        → p ≡ p'
        → (if c == d then p else 0) ≡ (if c' == d' then p' else 0)
    same_made ec ed ep = rw (ec, ed, ep) refl
