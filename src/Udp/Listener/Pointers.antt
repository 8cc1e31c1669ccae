-- ===== src/Udp/Listener/Pointers.antt =====
-- The pointers of the map of sessions of network/kcp/ln.go, when a session changes.
use emt.Common.{
  Has, same_bytes, same_bytes_refl, ℕ, zero, suc, ◌≡◌, ◌<◌, ◌≢◌, refl, ap, sym, ◌∙◌, inl, inr, ◌⊎◌,
  false, some, List, [], ◌∷◌, ◌++◌, length, get_elem?, set, get_elem?-set_ne, get_elem?-set_self,
  arith, ◌==◌, Bool-cases, All,
}
use emt.Udp.Listener.{Address, Entry}

-- A pointer of the map: the session is there, it has that address, and it is open, or a call of `Close`
-- is about to take the address out of the map.
abbrev pub Points : List Address → List Entry → Address × ℕ → Type 0
Points closers store (a, i) =
    (e : Entry) × (get_elem? store i ≡ some e)
    × (e.remote ≡ a)
    × ((e.session.die ≡ false) ⊎ Has a closers)

pub All-weaken :
    {A : Type 0} (P Q : A → Type 0) (xs : List A) → ((x : A) → P x → Q x) → All P xs → All Q xs
All-weaken P Q [] f h = tt
All-weaken P Q (x ∷ xs) f (h, hs) = (f x h, All-weaken P Q xs f hs)

pub get_elem?-lt : (xs : List Entry) (i : ℕ) (e : Entry) → get_elem? xs i ≡ some e → i < length xs
get_elem?-lt [] i e h = absurd (cc h)
get_elem?-lt (x ∷ xs) zero e h = omega arith
get_elem?-lt (x ∷ xs) (suc i) e h = omega (arith, get_elem?-lt xs i e h)

pub get_elem?-append :
    (xs ys : List Entry) (i : ℕ) (e : Entry)
    → get_elem? xs i ≡ some e
    → get_elem? (xs ++ ys) i ≡ some e
get_elem?-append [] ys i e h = absurd (cc h)
get_elem?-append (x ∷ xs) ys zero e h = h
get_elem?-append (x ∷ xs) ys (suc i) e h = get_elem?-append xs ys i e h

pub get_elem?-last : (xs : List Entry) (e : Entry) → get_elem? (xs ++ (e ∷ [])) (length xs) ≡ some e
get_elem?-last [] e = refl
get_elem?-last (x ∷ xs) e = get_elem?-last xs e

pub ℕ-cases : (i j : ℕ) → (i ≡ j) ⊎ (i ≢ j)
ℕ-cases i j = elim (Bool-cases (i == j)) [
  | inl same ↦ inl (ground arith)
  | inr other ↦ inr (λ e. absurd (ground arith))
]

-- A pointer to a session that was replaced by one that is as open as it was, at the same address.
pub Points-set :
    (cs : List Address) (store : List Entry) (i : ℕ) (e e' : Entry) (x : Address × ℕ)
    → get_elem? store i ≡ some e
    → e'.remote ≡ e.remote
    → e'.session.die ≡ e.session.die
    → Points cs store x
    → Points cs (set store i e') x
Points-set cs store i e e' (a, j) at r d (f, f_at, f_r, f_d) = elim (ℕ-cases i j) [
  | inl same ↦
      let is_e : e ≡ f = cc (sym at ∙ ap (get_elem? store) same ∙ f_at) in
      (
        e',
        ap (get_elem? (set store i e')) (sym same)
            ∙ get_elem?-set_self store i e' (get_elem?-lt store i e at),
        r ∙ ap (λ x. x.remote) is_e ∙ f_r,
        elim f_d [ inl o ↦ inl (d ∙ ap (λ x. x.session.die) is_e ∙ o) | inr c ↦ inr c ],
      )
  | inr other ↦ (f, get_elem?-set_ne store e' other ∙ f_at, f_r, f_d)
]

-- A pointer with another address than that of the session replaced.
pub Points-other :
    (cs : List Address) (store : List Entry) (i : ℕ) (e e' : Entry) (x : Address × ℕ)
    → get_elem? store i ≡ some e
    → Points cs store x × (same_bytes e.remote x.0 ≡ false)
    → Points cs (set store i e') x
Points-other cs store i e e' (a, j) at ((f, f_at, f_r, f_d), ne) = elim (ℕ-cases i j) [
  | inl same ↦
      let is_e : e ≡ f = cc (sym at ∙ ap (get_elem? store) same ∙ f_at) in
      let addr : e.remote ≡ a = ap (λ x. x.remote) is_e ∙ f_r in
      absurd (cc (sym (same_bytes_refl a) ∙ sym (ap (λ r. same_bytes r a) addr) ∙ ne))
  | inr other ↦ (f, get_elem?-set_ne store e' other ∙ f_at, f_r, f_d)
]
