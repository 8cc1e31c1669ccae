-- ===== src/Registry/Watching.antt =====
-- The events of a watcher of registry/redis/redis.go.
use emt.Common.{
  ◌≡◌, refl, ap, sym, ◌∙◌, inl, inr, Bool, true, false, not, ◌&&◌, ◌||◌, List, [], ◌∷◌, ◌++◌,
  Bool-cases, same_bytes, same_bytes-eq,
}
use emt.Registry.{Service, is_same, contain, Event, create, delete, created, deleted, tick}

-- Which services a handler knows that adds and removes what the events say.
pub replay : List Event → (Service → Bool) → Service → Bool
replay [] f s = f s
replay (create v ∷ es) f s = replay es (λ t. is_same v t || f t) s
replay (delete v ∷ es) f s = replay es (λ t. not (is_same v t) && f t) s

is_same-eq : (v s : Service) → is_same v s ≡ true → (v.id ≡ s.id) × (v.addr ≡ s.addr)
is_same-eq v s e = elim (Bool-cases (same_bytes v.id s.id)) [
  | inl same ↦ (same_bytes-eq v.id s.id same, same_bytes-eq v.addr s.addr (rw same at e))
  | inr ne ↦ absurd (cc (rw ne at e))
]

replay-append :
    (es es' : List Event) (f : Service → Bool) (s : Service)
    → replay (es ++ es') f s ≡ replay es' (replay es f) s
unfolding replay
replay-append [] es' f s = refl
replay-append (create v ∷ es) es' f s = replay-append es es' (λ t. is_same v t || f t) s
replay-append (delete v ∷ es) es' f s = replay-append es es' (λ t. not (is_same v t) && f t) s

-- Equal services are contained alike.
contain-is_same :
    (v s : Service) (vs : List Service) → is_same v s ≡ true → contain v vs ≡ contain s vs
unfolding contain
contain-is_same v s [] e = refl
contain-is_same v s (w ∷ ws) e =
    let (i, a) = is_same-eq v s e in
    ap (λ i. same_bytes w.id i && same_bytes w.addr v.addr || contain v ws) i
    ∙ ap (λ a. same_bytes w.id s.id && same_bytes w.addr a || contain v ws) a
    ∙ ap (λ b. is_same w s || b) (contain-is_same v s ws e)

contain-cons :
    (v : Service) (vs : List Service) (s : Service)
    → contain s (v ∷ vs) ≡ (is_same v s || contain s vs)
unfolding contain
contain-cons v vs s = refl

-- The Boolean algebra of the two loops. `f` says what the handler knows, `i` that the service is the
-- one at hand, `c` that it comes later, `o` that the other list has it.
added_known :
    (f i c o : Bool) → (i ≡ true → o ≡ true) → (f || (c && not o)) ≡ (f || ((i || c) && not o))
added_known true i c o h = refl
added_known false false c o h = refl
added_known false true true o h = refl
added_known false true false true h = refl
added_known false true false false h = absurd (cc (h refl))

added_new :
    (f i c o : Bool)
    → (i ≡ true → o ≡ false)
    → ((i || f) || (c && not o)) ≡ (f || ((i || c) && not o))
added_new f false c o h = refl
added_new true true c o h = refl
added_new false true c false h = refl
added_new false true c true h = absurd (cc (h refl))

removed_known :
    (f i c o : Bool)
    → (i ≡ true → o ≡ true)
    → (f && not (c && not o)) ≡ (f && not ((i || c) && not o))
removed_known false i c o h = refl
removed_known true false c o h = refl
removed_known true true true o h = refl
removed_known true true false true h = refl
removed_known true true false false h = absurd (cc (h refl))

removed_gone :
    (f i c o : Bool)
    → (i ≡ true → o ≡ false)
    → ((not i && f) && not (c && not o)) ≡ (f && not ((i || c) && not o))
removed_gone f false c o h = refl
removed_gone true true c false h = refl
removed_gone false true c false h = refl
removed_gone f true c true h = absurd (cc (h refl))

replay-created :
    (old vs : List Service) (f : Service → Bool) (s : Service)
    → replay (created old vs) f s ≡ (f s || (contain s vs && not (contain s old)))
unfolding replay created
replay-created old [] f s = unfold contain in or_false (f s)
  where
    or_false : (b : Bool) → b ≡ (b || false)
    or_false true = refl
    or_false false = refl
replay-created old (v ∷ vs) f s = elim (Bool-cases (contain v old)) [
  | inl known ↦ rw known (
      replay-created old vs f s
      ∙ added_known (f s) (is_same v s) (contain s vs) (contain s old)
          (λ e. sym (contain-is_same v s old e) ∙ known)
      ∙ ap (λ c. f s || (c && not (contain s old))) (sym (contain-cons v vs s)))
  | inr new ↦ rw new (
      replay-created old vs (λ t. is_same v t || f t) s
      ∙ added_new (f s) (is_same v s) (contain s vs) (contain s old)
          (λ e. sym (contain-is_same v s old e) ∙ new)
      ∙ ap (λ c. f s || (c && not (contain s old))) (sym (contain-cons v vs s)))
]

replay-deleted :
    (current vs : List Service) (f : Service → Bool) (s : Service)
    → replay (deleted current vs) f s ≡ (f s && not (contain s vs && not (contain s current)))
unfolding replay deleted
replay-deleted current [] f s = unfold contain in and_true (f s)
  where
    and_true : (b : Bool) → b ≡ (b && true)
    and_true true = refl
    and_true false = refl
replay-deleted current (v ∷ vs) f s = elim (Bool-cases (contain v current)) [
  | inl known ↦ rw known (
      replay-deleted current vs f s
      ∙ removed_known (f s) (is_same v s) (contain s vs) (contain s current)
          (λ e. sym (contain-is_same v s current e) ∙ known)
      ∙ ap (λ c. f s && not (c && not (contain s current))) (sym (contain-cons v vs s)))
  | inr gone ↦ rw gone (
      replay-deleted current vs (λ t. not (is_same v t) && f t) s
      ∙ removed_gone (f s) (is_same v s) (contain s vs) (contain s current)
          (λ e. sym (contain-is_same v s current e) ∙ gone)
      ∙ ap (λ c. f s && not (c && not (contain s current))) (sym (contain-cons v vs s)))
]

settled : (o c : Bool) → ((o || (c && not o)) && not (o && not c)) ≡ c
settled true true = refl
settled true false = refl
settled false true = refl
settled false false = refl

-- A handler that follows the events of a tick, from the services that the watcher kept, knows exactly
-- the services that are listed now: whatever the two lists are, with repetitions too. The watcher
-- keeps the new list.
pub replay-tick :
    (old current : List Service) (s : Service)
    → (replay (tick old current).0 (λ t. contain t old) s ≡ contain s current)
      × ((tick old current).1 ≡ current)
unfolding tick
replay-tick old current s = (
  replay-append (created old current) (deleted current old) (λ t. contain t old) s
      ∙ replay-deleted current old (replay (created old current) (λ t. contain t old)) s
      ∙ ap (λ b. b && not (contain s old && not (contain s current)))
          (replay-created old current (λ t. contain t old) s)
      ∙ settled (contain s old) (contain s current),
  refl,
)
