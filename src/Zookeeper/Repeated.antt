-- ===== src/Zookeeper/Repeated.antt =====
-- What a second registration does in registry/zookeeper/zookeeper.go.
use emt.Common.{
  ℕ, ◌≡◌, refl, subst, inl, inr, true, Bool-cases, Option, none, some, ◌∷◌, same_bytes_refl, arith,
}
use emt.Registry.{String}
use emt.Zookeeper.{
  Service, Client, node_path, Result, done, failed, panicked, and_then, Hashes, find, is_known,
}
use emt.Zookeeper.Registrations.{store_encoded, register_hashed, register}

module _ (c : Client) where
  register_known :
      (domain : String) (s : Service) (h : ℕ) (hs : Hashes) (st : c.State)
      → c.hash s ≡ some h
      → is_known (find s.id hs) h ≡ true
      → register c domain s (hs, st) ≡ done (hs, st)
  unfolding register
  register_known domain s h hs st e k = rw (e, k) refl

  put_known : (s : Service) (h : ℕ) (hs : Hashes) → is_known (find s.id ((s.id, h) ∷ hs)) h ≡ true
  put_known s h hs = rw (same_bytes_refl s.id) (ground arith)

  hashed-known :
      (domain : String) (s : Service) (h : ℕ) (hs : Hashes) (st : c.State) (z' : Hashes × c.State)
      → register_hashed c domain s (some h) (hs, st) ≡ done z'
      → is_known (find s.id z'.0) h ≡ true
  hashed-known domain s h hs st z' e = elim (Bool-cases (is_known (find s.id hs) h)) [
    | inl known ↦
        let same : ◌≡◌ {A = Hashes × c.State} (hs, st) z' = cc (rw known at e) in
        subst (λ (z : Hashes × c.State). is_known (find s.id z.0) h ≡ true) same known
    | inr new ↦ stored (store_encoded c (node_path domain s.id) _ _ st) (rw new at e)
  ]
    where
      stored :
          (r : Result c.State)
          → and_then {T = Hashes × c.State} r (λ st'. done ((s.id, h) ∷ hs, st')) (λ st'. (hs, st'))
            ≡ done z'
          → is_known (find s.id z'.0) h ≡ true
      stored (done st') q =
          let same : ◌≡◌ {A = Hashes × c.State} ((s.id, h) ∷ hs, st') z' = cc q in
          subst (λ (z : Hashes × c.State). is_known (find s.id z.0) h ≡ true) same
            (put_known s h hs)
      stored (failed st') q = absurd (cc q)
      stored panicked q = absurd (cc q)

  -- After a service was registered, to register it again does nothing and gives no error, in the same
  -- domain and in any other, whatever has become of the nodes of the server.
  pub register-register :
      (domain domain' : String) (s : Service) (z z' : Hashes × c.State) (st : c.State)
      → register c domain s z ≡ done z'
      → register c domain' s (z'.0, st) ≡ done (z'.0, st)
  unfolding register
  register-register domain domain' s (hs, st0) z' st e = by_hash (c.hash s) refl e
    where
      by_hash :
          (o : Option ℕ)
          → c.hash s ≡ o
          → register_hashed c domain s o (hs, st0) ≡ done z'
          → register c domain' s (z'.0, st) ≡ done (z'.0, st)
      by_hash none q k = absurd (cc k)
      by_hash (some h) q k =
          register_known domain' s h z'.0 st q (hashed-known domain s h hs st0 z' k)
