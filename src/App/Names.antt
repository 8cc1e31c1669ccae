-- ===== src/App/Names.antt =====
-- What AddServer and the like of app.go add.
use emt.Common.{
  ◌≡◌, refl, ap, sym, ◌∙◌, inl, inr, Bool, true, false, Bool-cases, none, some, Option-cases, List,
  [], ◌∷◌, ◌++◌, All, append-nil, append_assoc, same_bytes, same_bytes_refl, same_bytes-eq,
}
use emt.Registry.{String}
use emt.App.{Named, find, add_all, Server, App, named_servers, add_server}

module _ {V : Type 0} where
  -- Each name stands once.
  abbrev pub AreDistinct : Named V → Type 0
  AreDistinct [] = Unit {0}
  AreDistinct ((k, v) ∷ vs) = (find k vs ≡ none) × AreDistinct vs

  find-append : (k : String) (xs ys : Named V) → find k xs ≡ none → find k (xs ++ ys) ≡ find k ys
  find-append k [] ys e = refl
  find-append k ((j, w) ∷ xs) ys e = elim (Bool-cases (same_bytes j k)) [
    | inl same ↦ absurd (cc (rw same at e))
    | inr other ↦ rw other (find-append k xs ys (rw other at e))
  ]

  find-append_found :
      (k : String) (xs ys : Named V) (v : V) → find k xs ≡ some v → find k (xs ++ ys) ≡ some v
  find-append_found k [] ys v e = absurd (cc e)
  find-append_found k ((j, w) ∷ xs) ys v e = elim (Bool-cases (same_bytes j k)) [
    | inl same ↦ rw same (rw same at e)
    | inr other ↦ rw other (find-append_found k xs ys v (rw other at e))
  ]

  missed : (j k : String) (v : V) → same_bytes j k ≡ false → find j ((k, v) ∷ []) ≡ none
  missed j k v e = elim (Bool-cases (same_bytes k j)) [
    | inl same ↦
        absurd (cc (sym e ∙ ap (same_bytes j) (same_bytes-eq k j same) ∙ same_bytes_refl j))
    | inr other ↦ rw other refl
  ]

  found : (k : String) (v : V) → find k ((k, v) ∷ []) ≡ some v
  found k v = rw (same_bytes_refl k) refl

  AreDistinct-append :
      (xs : Named V) (k : String) (v : V)
      → AreDistinct xs
      → find k xs ≡ none
      → AreDistinct (xs ++ ((k, v) ∷ []))
  AreDistinct-append [] k v d e = (refl, tt)
  AreDistinct-append ((j, w) ∷ xs) k v (f, d) e = elim (Bool-cases (same_bytes j k)) [
    | inl same ↦ absurd (cc (rw same at e))
    | inr other ↦ (
      find-append j xs ((k, v) ∷ []) f ∙ missed j k v other,
      AreDistinct-append xs k v d (rw other at e),
    )
  ]

  -- All of them are found.
  abbrev pub AreFound : List (String × V) → Named V → Type 0
  AreFound vs m = All (λ e. find e.0 m ≡ some e.1) vs

  -- All were added, or those before one whose name was there.
  abbrev pub AreAdded : Bool → List (String × V) → Named V → Named V → Type 0
  AreAdded false vs m m' = (m' ≡ m ++ vs) × AreFound vs m'
  AreAdded true vs m m' =
      (before : List (String × V)) × (k : String) × (v : V) × (rest : List (String × V)) × (w : V)
      × (vs ≡ before ++ ((k, v) ∷ rest))
      × (m' ≡ m ++ before)
      × (find k m' ≡ some w)

  AreAdded-cons :
      (b : Bool) (k : String) (v : V) (vs : List (String × V)) (m m' : Named V)
      → find k m ≡ none
      → AreAdded b vs (m ++ ((k, v) ∷ [])) m'
      → AreAdded b ((k, v) ∷ vs) m m'
  AreAdded-cons false k v vs m m' e (q, f) =
      let here : find k (m ++ ((k, v) ∷ [])) ≡ some v =
        find-append k m ((k, v) ∷ []) e ∙ found k v in
      (
        q ∙ append_assoc m ((k, v) ∷ []) vs,
        (ap (find k) q ∙ find-append_found k (m ++ ((k, v) ∷ [])) vs v here, f),
      )
  AreAdded-cons true k v vs m m' e (before, k', v', rest, w, p, q, f) = (
    (k, v) ∷ before,
    k',
    v',
    rest,
    w,
    ap (λ (t : List (String × V)). (k, v) ∷ t) p,
    q ∙ append_assoc m ((k, v) ∷ []) before,
    f,
  )

  pub add_all-AreAdded :
      (vs : List (String × V)) (m : Named V)
      → AreDistinct m
      → AreDistinct (add_all vs m).1 × AreAdded (add_all vs m).0 vs m (add_all vs m).1
  unfolding add_all
  add_all-AreAdded [] m d = (d, (sym (append-nil m), tt))
  add_all-AreAdded ((k, v) ∷ vs) m d = elim (Option-cases (find k m)) [
    | inl e ↦
        let (d', a) = add_all-AreAdded vs (m ++ ((k, v) ∷ [])) (AreDistinct-append m k v d e) in
        rw e (d', AreAdded-cons _ k v vs m _ e a)
    | inr (w, e) ↦ rw e (d, ([], k, v, vs, w, refl, sym (append-nil m), e))
  ]

-- AddServer keeps the names apart. If it gives no error, it has added all servers, and each is found
-- under its name; if it gives an error, it has added those before the first whose name was there,
-- or was added before in this call.
pub add_server-AreAdded :
    (ss : List Server) (app : App)
    → AreDistinct app.svrs
    → AreDistinct (add_server ss app).1.svrs
      × AreAdded (add_server ss app).0 (named_servers ss) app.svrs (add_server ss app).1.svrs
unfolding add_server
add_server-AreAdded ss app d = add_all-AreAdded (named_servers ss) app.svrs d
