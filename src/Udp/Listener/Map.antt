-- ===== src/Udp/Listener/Map.antt =====
-- The map of sessions of network/kcp/ln.go, by addresses.
use emt.Common.{
  same_bytes, same_bytes-eq, ℕ, ◌≡◌, refl, sym, inl, inr, false, none, some, List, [], ◌∷◌,
  Bool-cases, All,
}
use emt.Udp.Listener.{Address, lookup, remove}

-- No address stands twice.
abbrev pub IsMap : List (Address × ℕ) → Type 0
IsMap [] = Unit {0}
IsMap ((a, i) ∷ rest) = (lookup a rest ≡ none) × IsMap rest

pub lookup-remove : (a : Address) (m : List (Address × ℕ)) → lookup a (remove a m) ≡ none
lookup-remove a [] = refl
lookup-remove a ((b, i) ∷ rest) = elim (Bool-cases (same_bytes a b)) [
  | inl same ↦ rw same (lookup-remove a rest)
  | inr other ↦ rw (other, other) (lookup-remove a rest)
]

lookup-remove-none :
    (b a : Address) (m : List (Address × ℕ)) → lookup b m ≡ none → lookup b (remove a m) ≡ none
lookup-remove-none b a [] h = refl
lookup-remove-none b a ((c, i) ∷ rest) h = elim (Bool-cases (same_bytes b c)) [
  | inl same ↦ absurd (cc (rw same at h))
  | inr other ↦
      let h' = rw other at h in
      elim (Bool-cases (same_bytes a c)) [
        | inl gone ↦ rw gone (lookup-remove-none b a rest h')
        | inr stays ↦ rw (stays, other) (lookup-remove-none b a rest h')
      ]
]

pub remove-IsMap : (a : Address) (m : List (Address × ℕ)) → IsMap m → IsMap (remove a m)
remove-IsMap a [] h = tt
remove-IsMap a ((b, i) ∷ rest) (n, h) = elim (Bool-cases (same_bytes a b)) [
  | inl same ↦ rw same (remove-IsMap a rest h)
  | inr other ↦ rw other (lookup-remove-none b a rest n, remove-IsMap a rest h)
]

-- What holds of all entries holds of those that stay, and they have other addresses.
pub All-remove :
    (P : Address × ℕ → Type 0) (a : Address) (m : List (Address × ℕ))
    → All P m
    → All (λ x. P x × (same_bytes a x.0 ≡ false)) (remove a m)
All-remove P a [] h = tt
All-remove P a ((b, i) ∷ rest) (p, h) = elim (Bool-cases (same_bytes a b)) [
  | inl same ↦ rw same (All-remove P a rest h)
  | inr other ↦ rw other ((p, other), All-remove P a rest h)
]

-- What is found is an entry.
pub lookup-All :
    (P : Address × ℕ → Type 0) (a : Address) (m : List (Address × ℕ)) (i : ℕ)
    → All P m
    → lookup a m ≡ some i
    → P (a, i)
lookup-All P a [] i h e = absurd (cc e)
lookup-All P a ((b, j) ∷ rest) i (p, h) e = elim (Bool-cases (same_bytes a b)) [
  | inl same ↦
      let addr = same_bytes-eq a b same in
      let idx : j ≡ i = cc (rw same at e) in rw (addr, sym idx) p
  | inr other ↦ lookup-All P a rest i h (rw other at e)
]
