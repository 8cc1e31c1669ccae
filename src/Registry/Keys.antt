-- ===== src/Registry/Keys.antt =====
-- The keys of registry/redis/redis.go.
use emt.Common.{
  ◌≡◌, refl, ap, sym, ◌∙◌, inl, inr, Bool, true, false, ◌||◌, some, [], ◌∷◌, ◌++◌, ◌==◌, Bool-cases,
}
use emt.Registry.{
  String, Service, plain, separator, contains, to_first, split, service_to_key, from_parts,
  key_to_service,
}

-- A part without a separator comes off whole.
split-part :
    (part rest : String)
    → contains part ≡ false
    → split (part ++ (separator ∷ rest)) ≡ part ∷ split rest
unfolding split contains
split-part [] rest h = refl
split-part (c ∷ cs) rest h = elim (Bool-cases (c == separator)) [
  | inl sep ↦ absurd (cc (rw sep at h))
  | inr other ↦ rw other (ap (to_first c) (split-part cs rest (rw other at h)))
]

split-last : (part : String) → contains part ≡ false → split part ≡ part ∷ []
unfolding split contains
split-last [] h = refl
split-last (c ∷ cs) h = elim (Bool-cases (c == separator)) [
  | inl sep ↦ absurd (cc (rw sep at h))
  | inr other ↦ rw other (ap (to_first c) (split-last cs (rw other at h)))
]

or-false : (a b : Bool) → (a || b) ≡ false → (a ≡ false) × (b ≡ false)
or-false true b h = absurd (cc h)
or-false false b h = (refl, h)

-- What a key is made of.
pub service_to_key_lem :
    (domain : String) (s : Service) (key : String)
    → service_to_key domain s ≡ some key
    → (contains domain ≡ false)
      × (contains s.id ≡ false)
      × (contains s.addr ≡ false)
      × (key ≡ domain ++ (separator ∷ (s.addr ++ (separator ∷ s.id))))
unfolding service_to_key
service_to_key_lem domain s key e =
    elim (Bool-cases (contains domain || (contains s.id || contains s.addr))) [
      | inl bad ↦ absurd (cc (rw bad at e))
      | inr good ↦
          let (d, rest) = or-false (contains domain) _ good in
          let (i, a) = or-false (contains s.id) (contains s.addr) rest in
          (d, i, a, cc (rw good at e))
    ]

split-key :
    (domain : String) (s : Service) (key : String)
    → service_to_key domain s ≡ some key
    → split key ≡ domain ∷ s.addr ∷ s.id ∷ []
split-key domain s key e =
    let (d, i, a, k) = service_to_key_lem domain s key e in
    ap split k
    ∙ split-part domain _ d
    ∙ ap (λ t. domain ∷ t) (split-part s.addr s.id a ∙ ap (λ t. s.addr ∷ t) (split-last s.id i))

-- A key that was made of a service is read as a service with its id and its address, and without its
-- version and its endpoints; and it stands for no service with another id or address, and no other
-- domain.
pub key_to_service-service_to_key :
    (domain domain' : String) (s s' : Service) (key : String)
    → service_to_key domain s ≡ some key
    → service_to_key domain' s' ≡ some key
    → (key_to_service key ≡ some (plain s.id s.addr))
      × (domain' ≡ domain)
      × (s'.id ≡ s.id)
      × (s'.addr ≡ s.addr)
unfolding key_to_service
key_to_service-service_to_key domain domain' s s' key e e' =
    let q = sym (split-key domain' s' key e') ∙ split-key domain s key e in
    (ap from_parts (split-key domain s key e), cc q, cc q, cc q)

pub same_domain :
    (d d' x y : String)
    → contains d ≡ false
    → contains d' ≡ false
    → d ++ (separator ∷ x) ≡ d' ++ (separator ∷ y)
    → d' ≡ d
same_domain d d' x y h h' e =
    let q = sym (split-part d x h) ∙ ap split e ∙ split-part d' y h' in cc q
