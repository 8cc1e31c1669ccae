-- ===== src/Registry/Listing.antt =====
-- What `ListServices` of registry/redis/redis.go gives after `Register` and `DeRegister`.
use emt.Common.{
  ℕ, ◌<◌, Has, ◌≡◌, ◌≢◌, ◌↔◌, ◌⊎◌, refl, ap, sym, ◌∙◌, inl, inr, Bool, true, false, ◌&&◌, not,
  Option, none, some, List, [], ◌∷◌, ◌++◌, append_assoc, ◌==◌, subst,
}
use emt.Registry.{
  String, Service, plain, separator, contains, service_to_key, key_to_service, Redis, register,
  keep, services_of, list_services,
}
use emt.Registry.Keys.{service_to_key_lem, key_to_service-service_to_key, same_domain}

-- None of the characters that a pattern of `KEYS` gives a meaning: * ? [ ] ^ - and the backslash.
abbrev pub is_literal : String → Bool
is_literal [] = true
is_literal (c ∷ cs) =
    not (c == 42)
    && (not (c == 63) && (not (c == 91) && (not (c == 92) && (not (c == 93) && is_literal cs))))

-- A key that was there, or the new one, where it begins with the prefix.
abbrev pub IsAdded : String → String → String → List String → Type 0
IsAdded prefix key k ks = ((k ≡ key) × ((rest : String) × (key ≡ prefix ++ rest))) ⊎ Has k ks

-- What redis says of its commands: `KEYS` with a literal prefix and a star gives the keys that begin
-- with the prefix, `SET` with a positive time adds a key, until that time is over, and `DEL` takes it
-- away. The time that passes between two commands is left out: no key expires in between.
pub record IsRedis (r : Redis) : Type 0 where
  pub keys-put :
      (prefix key k : String) (ttl : ℕ) (st : r.State)
      → is_literal prefix ≡ true
      → 0 < ttl
      → Has k (r.keys prefix (r.put key ttl st)) ↔ IsAdded prefix key k (r.keys prefix st)
  pub keys-del :
      (prefix key k : String) (st : r.State)
      → is_literal prefix ≡ true
      → Has k (r.keys prefix (r.del key st)) ↔ ((k ≢ key) × Has k (r.keys prefix st))

keep-Has :
    (v : Service) (o : Option Service) (vs : List Service)
    → Has v (keep o vs) ↔ ((o ≡ some v) ⊎ Has v vs)
keep-Has v none vs = (inr, λ h. elim h [ inl e ↦ absurd (cc e) | inr h ↦ h ])
keep-Has v (some s) vs = (
  λ h. elim h [ inl e ↦ inl (ap some e) | inr h ↦ inr h ],
  λ h. elim h [ inl e ↦ inl (cc e) | inr h ↦ inr h ],
)

-- A listed service is that of a key.
services_of-Has :
    (v : Service) (ks : List String)
    → Has v (services_of ks) ↔ ((k : String) × Has k ks × (key_to_service k ≡ some v))
unfolding services_of
services_of-Has v [] = (λ h. absurd h, λ (k, h, e). absurd h)
services_of-Has v (k ∷ ks) =
    let (to, from) = keep-Has v (key_to_service k) (services_of ks) in
    let (ih_to, ih_from) = services_of-Has v ks in
    (
      λ h. elim (to h) [
        | inl e ↦ (k, inl refl, e)
        | inr h ↦ let (j, hj, e) = ih_to h in (j, inr hj, e)
      ],
      λ (j, h, e). from (elim h [
        | inl same ↦ inl (ap key_to_service same ∙ e)
        | inr hj ↦ inr (ih_from (j, hj, e))
      ]),
    )

register-key :
    (r : Redis) (domain : String) (ttl : ℕ) (s : Service) (st st' : r.State)
    → register r domain ttl s st ≡ some st'
    → (key : String) × (service_to_key domain s ≡ some key) × (st' ≡ r.put key ttl st)
unfolding register
register-key r domain ttl s st st' e = by_key (service_to_key domain s) refl e
  where
    by_key :
        (o : Option String)
        → service_to_key domain s ≡ o
        → (elim o [ none ↦ none | some key ↦ some (r.put key ttl st) ]) ≡ some st'
        → (key : String) × (service_to_key domain s ≡ some key) × (st' ≡ r.put key ttl st)
    by_key none h e = absurd (cc e)
    by_key (some key) h e = (key, h, cc e)

-- With a server that does what redis says: after a registration that was accepted, the services
-- listed of a domain, whose name is literal and has no separator, are those listed before, and the
-- new one, with no version and no endpoints, if the domain is its own.
pub list_services-register :
    (r : Redis) (domain domain' : String) (ttl : ℕ) (s v : Service) (st st' : r.State)
    → IsRedis r
    → 0 < ttl
    → register r domain ttl s st ≡ some st'
    → contains domain' ≡ false
    → is_literal (domain' ++ (separator ∷ [])) ≡ true
    → Has v (list_services r domain' st')
      ↔ (((domain' ≡ domain) × (v ≡ plain s.id s.addr)) ⊎ Has v (list_services r domain' st))
unfolding list_services
list_services-register r domain domain' ttl s v st st' redis pos e c l =
    let (key, sk, stored) = register-key r domain ttl s st st' e in
    let prefix = domain' ++ (separator ∷ []) in
    let (d, i, a, form) = service_to_key_lem domain s key sk in
    let (reads, _, _, _) = key_to_service-service_to_key domain domain s s key sk sk in
    let (put_to, put_from) = keys_after key prefix st' l stored in
    let (new_to, new_from) = services_of-Has v (r.keys prefix st') in
    let (old_to, old_from) = services_of-Has v (r.keys prefix st) in
    (
      λ h.
          let (k, at, ek) = new_to h in
          elim (put_to k at) [
            | inl p ↦ inl (
              same_domain domain domain' _ p.1.0 d c
                  (sym form ∙ p.1.1 ∙ append_assoc domain' (separator ∷ []) p.1.0),
              some_same (sym ek ∙ ap key_to_service p.0 ∙ reads),
            )
            | inr old ↦ inr (old_from (k, old, ek))
          ],
      λ h. elim h [
        | inl p ↦ new_from (
          key,
          put_from key (
              inl (
                refl,
                (
                  s.addr ++ (separator ∷ s.id),
                  form
                      ∙ ap (λ d. d ++ (separator ∷ (s.addr ++ (separator ∷ s.id)))) (sym p.0)
                      ∙ sym (append_assoc domain' (separator ∷ []) _),
                ),
              )),
          reads ∙ ap some (sym p.1),
        )
        | inr old ↦ let (k, at, ek) = old_to old in new_from (k, put_from k (inr at), ek)
      ],
    )
  where
    some_same : {x y : Service} → some x ≡ some y → x ≡ y
    some_same e = cc e

    keys_after :
        (key prefix : String) (st' : r.State)
        → is_literal prefix ≡ true
        → st' ≡ r.put key ttl st
        → ((k : String) → Has k (r.keys prefix st') → IsAdded prefix key k (r.keys prefix st))
          × ((k : String) → IsAdded prefix key k (r.keys prefix st) → Has k (r.keys prefix st'))
    keys_after key prefix st' l e = (
      λ k at.
          (redis.keys-put prefix key k ttl st l pos).0 (subst (λ t. Has k (r.keys prefix t)) e at),
      λ k at.
          subst (λ t. Has k (r.keys prefix t)) (sym e)
            ((redis.keys-put prefix key k ttl st l pos).1 at),
    )
