-- ===== src/Registry/Tests.antt =====
-- registry/redis/redis.go with a server that keeps a list of keys.
use emt.Common.{
  Has, ◌≡◌, ◌≢◌, ◌↔◌, refl, ap, sym, ◌∙◌, inl, inr, Bool, true, false, ◌&&◌, some, List, [], ◌∷◌,
  ◌++◌, ◌==◌, Bool-cases, same_bytes, same_bytes_refl, same_bytes-eq, arith, if◌then◌else◌,
}
use emt.Registry.{
  String, Service, plain, Redis, create, delete, service_to_key, key_to_service, register, contain,
  tick,
}
use emt.Registry.Keys.{key_to_service-service_to_key}
use emt.Registry.Listing.{IsAdded, IsRedis}
use emt.Registry.Watching.{replay, replay-tick}

abbrev starts : String → String → Bool
starts [] k = true
starts (p ∷ ps) [] = false
starts (p ∷ ps) (c ∷ cs) = p == c && starts ps cs

abbrev matching : String → List String → List String
matching prefix [] = []
matching prefix (k ∷ ks) = if starts prefix k then k ∷ matching prefix ks else matching prefix ks

abbrev without : String → List String → List String
without key [] = []
without key (k ∷ ks) = if same_bytes key k then without key ks else k ∷ without key ks

abbrev pub server : Redis
server = record {
  State = List String;
  put = λ key ttl st. key ∷ st;
  del = without;
  keys = matching;
}

starts-rest : (p k : String) → starts p k ≡ true → (rest : String) × (k ≡ p ++ rest)
starts-rest [] k e = (k, refl)
starts-rest (p ∷ ps) [] e = absurd (cc e)
starts-rest (p ∷ ps) (c ∷ cs) e = elim (Bool-cases (p == c)) [
  | inl same ↦
      let (rest, q) = starts-rest ps cs (rw same at e) in let h : c ≡ p = ground arith in (rest, cc)
  | inr ne ↦ absurd (cc (rw ne at e))
]

starts-append : (p rest : String) → starts p (p ++ rest) ≡ true
starts-append [] rest = refl
starts-append (p ∷ ps) rest =
    let same : (p == p) ≡ true = ground arith in rw (same, starts-append ps rest)

matching-put :
    (prefix key k : String) (st : List String)
    → Has k (matching prefix (key ∷ st)) ↔ IsAdded prefix key k (matching prefix st)
matching-put prefix key k st = elim (Bool-cases (starts prefix key)) [
  | inl begins ↦ rw begins (
    λ h. elim h [ inl e ↦ inl (sym e, starts-rest prefix key begins) | inr h ↦ inr h ],
    λ h. elim h [ inl p ↦ inl (sym p.0) | inr h ↦ inr h ],
  )
  | inr other ↦ rw other (
    inr,
    λ h. elim h [
      | inl p ↦ absurd (cc (sym other ∙ ap (starts prefix) p.1.1 ∙ starts-append prefix p.1.0))
      | inr h ↦ h
    ],
  )
]

other_key : (key k j : String) → same_bytes key j ≡ true → k ≢ key → j ≡ k → ⊥
other_key key k j e n q = n (sym q ∙ sym (same_bytes-eq key j e))

kept_key : (key k j : String) → same_bytes key j ≡ false → j ≡ k → k ≢ key
kept_key key k j e q n = absurd (cc (sym e ∙ ap (same_bytes key) (q ∙ n) ∙ same_bytes_refl key))

matching-without :
    (prefix key k : String) (st : List String)
    → Has k (matching prefix (without key st)) ↔ ((k ≢ key) × Has k (matching prefix st))
matching-without prefix key k [] = (λ h. absurd h, λ h. absurd h.1)
matching-without prefix key k (j ∷ js) =
    let (to, from) = matching-without prefix key k js in
    elim (Bool-cases (same_bytes key j)) [
      | inl gone ↦ elim (Bool-cases (starts prefix j)) [
        | inl begins ↦
            rw (gone, begins)
              (
                λ h. let (n, i) = to h in (n, inr i),
                λ h. elim h.1 [
                  | inl q ↦ absurd (other_key key k j gone h.0 q)
                  | inr i ↦ from (h.0, i)
                ],
              )
        | inr misses ↦ rw (gone, misses) (to, from)
      ]
      | inr stays ↦ elim (Bool-cases (starts prefix j)) [
        | inl begins ↦
            rw (stays, begins)
              (
                λ h. elim h [
                  | inl q ↦ (kept_key key k j stays q, inl q)
                  | inr i ↦ let (n, i') = to i in (n, inr i')
                ],
                λ h. elim h.1 [ inl q ↦ inl q | inr i ↦ inr (from (h.0, i)) ],
              )
        | inr misses ↦ rw (stays, misses) (to, from)
      ]
    ]

pub server-IsRedis : IsRedis server
server-IsRedis = record {
  keys-put = λ prefix key k ttl st l pos. matching-put prefix key k st;
  keys-del = λ prefix key k st l. matching-without prefix key k st;
}

-- The services s and t of the domain d.
abbrev first : Service
first = record { id = 115 ∷ []; addr = 97 ∷ []; version = 3; endpoints = 0 }

abbrev second : Service
second = record { id = 116 ∷ []; addr = 97 ∷ []; version = 0; endpoints = 0 }

abbrev domain : String
domain = 100 ∷ []

abbrev first_key : String
first_key = 100 ∷ 95 ∷ 97 ∷ 95 ∷ 115 ∷ []

first-key : service_to_key domain first ≡ some first_key
unfolding service_to_key
first-key = refl

key_to_service-service_to_key_example :
    (key_to_service first_key ≡ some (plain first.id first.addr))
    × (domain ≡ domain)
    × (first.id ≡ first.id)
    × (first.addr ≡ first.addr)
key_to_service-service_to_key_example =
    key_to_service-service_to_key domain domain first first first_key first-key first-key

first-registered : register server domain 30 first [] ≡ some (first_key ∷ [])
unfolding register
first-registered = refl

first-gone : tick (first ∷ []) (second ∷ []) ≡ (create second ∷ delete first ∷ [], second ∷ [])
unfolding tick
first-gone = refl

replay-tick_example :
    (replay (tick (first ∷ []) (second ∷ [])).0 (λ t. contain t (first ∷ [])) second
      ≡ contain second (second ∷ []))
    × ((tick (first ∷ []) (second ∷ [])).1 ≡ second ∷ [])
replay-tick_example = replay-tick (first ∷ []) (second ∷ []) second
