-- ===== src/Common/Bytes.antt =====
-- Equality of strings, as bytes.
use Prim.Native.Nat.{ℕ}
use mathlib.Core.Path.{◌≡◌, refl}
use mathlib.Core.Logic.{inl, inr}
use mathlib.Core.Bool.{Bool, true, false, ◌&&◌}
use mathlib.Core.List.{List, [], ◌∷◌}
use native.Mathlib.Omega.{arith}
use emt.Common.Tests.{◌==◌, Bool-cases}

abbrev pub same_bytes : List ℕ → List ℕ → Bool
same_bytes [] [] = true
same_bytes [] (b ∷ bs) = false
same_bytes (a ∷ as') [] = false
same_bytes (a ∷ as') (b ∷ bs) = a == b && same_bytes as' bs

pub same_bytes_refl : (a : List ℕ) → same_bytes a a ≡ true
same_bytes_refl [] = refl
same_bytes_refl (b ∷ bs) =
    let same : (b == b) ≡ true = ground arith in rw (same, same_bytes_refl bs)

pub same_bytes-eq : (a b : List ℕ) → same_bytes a b ≡ true → a ≡ b
same_bytes-eq [] [] e = refl
same_bytes-eq [] (b ∷ bs) e = absurd (cc e)
same_bytes-eq (a ∷ as') [] e = absurd (cc e)
same_bytes-eq (a ∷ as') (b ∷ bs) e = elim (Bool-cases (a == b)) [
  | inl same ↦
      let heads : a ≡ b = ground arith in
      let tails : as' ≡ bs = same_bytes-eq as' bs (rw same at e) in cc
  | inr ne ↦ absurd (cc (rw ne at e))
]
