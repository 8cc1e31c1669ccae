-- ===== src/Session/Tests.antt =====
-- network/session/session.go with numbers as messages, and a cipher that adds 1.
use emt.Common.{ℕ, zero, suc, ◌≡◌, refl, sym, ap, ◌∙◌, false, none, some, List, [], ◌∷◌, map}
use emt.Session.{Codec, Crypt, Session, write_message, failed, write}
use emt.Session.RoundTrip.{AreInverse}

abbrev numbers : Codec ℕ
numbers = record {
  marshal = λ n. some (n ∷ []);
  unmarshal = λ d. elim d [ [] ↦ none | n ∷ rest ↦ some n ];
}

abbrev predecessor : ℕ → ℕ
predecessor zero = 0
predecessor (suc n) = n

abbrev shifted : Crypt
shifted = record { encrypt = λ d. some (map suc d); decrypt = λ d. some (map predecessor d) }

abbrev session : Session ℕ
session = record { codec = numbers; crypt = some shifted; entries = [] }

shift_back : (d : List ℕ) → map predecessor (map suc d) ≡ d
shift_back [] = refl
shift_back (n ∷ ns) = ap (λ t. n ∷ t) (shift_back ns)

session-AreInverse : AreInverse session session
session-AreInverse = record {
  codec = λ m d e. let same : m ∷ [] ≡ d = cc e in ap (λ d. numbers.unmarshal d) (sym same);
  crypt = λ d e c.
      let same : map suc d ≡ e = cc c in
      ap (λ e. some (map predecessor e)) (sym same) ∙ ap some (shift_back d);
}

write-down : write_message session false 4 ≡ failed write
unfolding write_message
write-down = refl
