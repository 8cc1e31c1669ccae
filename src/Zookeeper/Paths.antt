-- ===== src/Zookeeper/Paths.antt =====
-- The names of the nodes of registry/zookeeper, and what ListServices reads of them.
use emt.Common.{
  ℕ, ◌≡◌, ◌≢◌, ◌↔◌, refl, ap, sym, ◌∙◌, inl, inr, Bool, true, false, not, ◌&&◌, ◌||◌, Bool-cases,
  Option, none, some, List, [], ◌∷◌, ◌++◌, ◌==◌, Has, same_bytes, arith,
}
use emt.Registry
use emt.Registry.{String}
use emt.Zookeeper.{
  Service, Client, default_project_name, replace_char, replace_all, node_name, node_path, cons_some,
  vague_path, Result, done, failed, panicked,
}
use emt.Zookeeper.Registrations.{
  list_decoded, list_node, list_key, list_keys, list_children, list_services,
}

-- Without an underscore, and without a slash.
abbrev pub is_plain : String → Bool
is_plain [] = true
is_plain (c ∷ cs) = not (c == 95) && (not (c == 47) && is_plain cs)

abbrev pub has_underscore : String → Bool
has_underscore [] = false
has_underscore (c ∷ cs) = c == 95 || has_underscore cs

cons_some-eq :
    (c d : ℕ) (o : Option String) (ds : String)
    → cons_some c o ≡ some (d ∷ ds)
    → (c ≡ d) × (o ≡ some ds)
cons_some-eq c d none ds e = absurd (cc e)
cons_some-eq c d (some cs) ds e = (cc e, cc e)

plain-vague_path :
    (domain rest : String)
    → is_plain domain ≡ true
    → vague_path (replace_all domain ++ (95 ∷ rest)) ≡ some domain
unfolding replace_all vague_path
plain-vague_path [] rest e = refl
plain-vague_path (c ∷ cs) rest e =
    let under : (c == 95) ≡ false = ground arith in
    let slash : (c == 47) ≡ false = ground arith in
    let tail : is_plain cs ≡ true = ground arith in
    rw (slash, under) (ap (cons_some c) (plain-vague_path cs rest tail))

vague_path-plain :
    (domain rest : String)
    → vague_path (replace_all domain ++ (95 ∷ rest)) ≡ some domain
    → is_plain domain ≡ true
unfolding replace_all vague_path
vague_path-plain [] rest e = refl
vague_path-plain (c ∷ cs) rest e = elim (Bool-cases (replace_char c == 95)) [
  | inl under ↦ absurd (cc (rw under at e))
  | inr other ↦
      let same : replace_char c ≡ c = (cons_some-eq (replace_char c) c _ cs (rw other at e)).0 in
      let tail : vague_path (replace_all cs ++ (95 ∷ rest)) ≡ some cs =
        (cons_some-eq (replace_char c) c _ cs (rw other at e)).1 in
      let slash : (c == 47) ≡ false = ground arith in
      let under : (c == 95) ≡ false = ground arith in
      rw (slash, under) (vague_path-plain cs rest tail)
]

-- ListServices takes the node of a service with an id for one of its domain exactly when the domain
-- has neither an underscore nor a slash.
pub vague_path-node_name :
    (domain : String) (c : ℕ) (cs : String)
    → (vague_path (node_name domain (c ∷ cs)) ≡ some domain) ↔ (is_plain domain ≡ true)
unfolding node_name
vague_path-node_name domain c cs =
    (vague_path-plain domain (replace_all (c ∷ cs)), plain-vague_path domain (replace_all (c ∷ cs)))

vague_path-none :
    (domain : String) → has_underscore domain ≡ false → vague_path (replace_all domain) ≡ none
unfolding replace_all vague_path
vague_path-none [] e = refl
vague_path-none (c ∷ cs) e =
    let other : (replace_char c == 95) ≡ false = ground arith in
    let tail : has_underscore cs ≡ false = ground arith in
    rw other (ap (cons_some (replace_char c)) (vague_path-none cs tail))

module _ (c : Client) where
  list_decoded-ne-done :
      (o : Option Service) (rest : Result (List Registry.Service))
      → ((ls : List Registry.Service) → rest ≢ done ls)
      → (ls : List Registry.Service) → list_decoded c o rest ≢ done ls
  list_decoded-ne-done none rest n ls e = cc e
  list_decoded-ne-done (some s) (done ss) n ls e = n ss refl
  list_decoded-ne-done (some s) (failed ss) n ls e = cc e
  list_decoded-ne-done (some s) panicked n ls e = cc e

  list_node-ne-done :
      (key : String) (o : Option ℕ) (st : c.State) (rest : Result (List Registry.Service))
      → ((ls : List Registry.Service) → rest ≢ done ls)
      → (ls : List Registry.Service) → list_node c key o st rest ≢ done ls
  list_node-ne-done key none st rest n ls e = cc e
  list_node-ne-done key (some m) st rest n ls e = elim (Bool-cases (m == 0)) [
    | inl leaf ↦ list_decoded-ne-done _ rest n ls (rw leaf at e)
    | inr inner ↦ n ls (rw inner at e)
  ]

  list_key-ne-done :
      (domain key : String) (o : Option String) (st : c.State)
      (rest : Result (List Registry.Service))
      → ((ls : List Registry.Service) → rest ≢ done ls)
      → (ls : List Registry.Service) → list_key c domain key o st rest ≢ done ls
  list_key-ne-done domain key none st rest n ls e = cc e
  list_key-ne-done domain key (some d) st rest n ls e = elim (Bool-cases (same_bytes d domain)) [
    | inl same ↦
        list_node-ne-done key (c.num_children (node_path key []) st) st rest n ls (rw same at e)
    | inr other ↦ n ls (rw other at e)
  ]

  list_keys-ne-done :
      (domain key : String) (keys : List String) (st : c.State)
      → Has key keys
      → vague_path key ≡ none
      → (ls : List Registry.Service) → list_keys c domain keys st ≢ done ls
  unfolding list_keys
  list_keys-ne-done domain key [] st h v ls e = absurd h
  list_keys-ne-done domain key (k ∷ keys) st (inl same) v ls e = cc (rw (same, v) at e)
  list_keys-ne-done domain key (k ∷ keys) st (inr h) v ls e =
      list_key-ne-done domain k (vague_path k) st _ (list_keys-ne-done domain key keys st h v) ls e

  -- While there is the node of a service that was registered with an empty id, in a domain without an
  -- underscore, no call of ListServices comes to a result, for no domain.
  pub list_services-ne-done :
      (domain domain' : String) (keys : List String) (st : c.State) (ls : List Registry.Service)
      → has_underscore domain ≡ false
      → c.children default_project_name st ≡ some keys
      → Has (node_name domain []) keys
      → list_services c domain' st ≢ done ls
  unfolding list_services node_name
  list_services-ne-done domain domain' keys st ls u e h q =
      list_keys-ne-done domain' (replace_all domain) keys st h (vague_path-none domain u) ls
        (sym (ap (λ o. list_children c domain' o st) e) ∙ q)
