-- ===== src/Kcp/Recv/Members.antt =====
-- Which segments stand in the receive buffer of network/kcp/kcp.go when one is put in its place.
use emt.Common.{
  ℕ, ◌≡◌, ◌≤◌, ◌<◌, ◌^◌, ◌↔◌, ◌⊎◌, refl, sym, ap, ◌∙◌, inl, inr, true, false, Option, none, some,
  List, [], ◌∷◌, ◌++◌, Has, ltb, ◌==◌, Bool-cases,
}
use emt.Word.{IsU32}
use emt.Kcp.State.{Segment}
use emt.Kcp.Recv.{Slot, repeated, after, find_slot, insert_slot}
use emt.Kcp.Recv.Order.{off, contains, IsOrdered, place, insert_slot-place}

pub Has-append : {A : Type 0} (x : A) (xs ys : List A) → Has x (xs ++ ys) ↔ (Has x xs ⊎ Has x ys)
Has-append x [] ys = (inr, λ h. elim h [ inl e ↦ absurd e | inr h ↦ h ])
Has-append x (y ∷ xs) ys =
    let (to, from) = Has-append x xs ys in
    (
      λ h. elim h [
        | inl e ↦ inl (inl e)
        | inr h ↦ elim (to h) [ inl h ↦ inl (inr h) | inr h ↦ inr h ]
      ],
      λ h. elim h [
        | inl h ↦ elim h [ inl e ↦ inl e | inr h ↦ inr (from (inl h)) ]
        | inr h ↦ inr (from (inr h))
      ],
    )

insert_slot-true :
    (o : Option Slot) (seg : Segment) (buf : List Segment)
    → (insert_slot o seg buf).0 ≡ true
    → (insert_slot o seg buf).1 ≡ buf
unfolding insert_slot
insert_slot-true none seg buf e = absurd (cc e)
insert_slot-true (some repeated) seg buf e = refl
insert_slot-true (some (after i)) seg buf e = absurd (cc e)

-- A number that is there already changes nothing.
pub place-contains :
    (base wnd : ℕ) (seg : Segment) (ss : List Segment)
    → IsU32 base
    → wnd ≤ 2 ^ 31
    → IsU32 seg.sn
    → off base seg < wnd
    → IsOrdered base wnd 0 ss
    → contains seg.sn ss ≡ true
    → place base seg ss ≡ ss
place-contains base wnd seg ss hb hw hs hd o c =
    let e = insert_slot-place base wnd 0 seg ss hb hw hs hd o in
    sym (ap (λ r. r.1) e) ∙ insert_slot-true (find_slot seg.sn ss) seg ss (ap (λ r. r.0) e ∙ c)

-- A new number puts the segment there, and nothing else.
pub place-Has :
    (base : ℕ) (seg x : Segment) (ss : List Segment)
    → contains seg.sn ss ≡ false
    → Has x (place base seg ss) ↔ ((seg ≡ x) ⊎ Has x ss)
place-Has base seg x [] c = (λ h. h, λ h. h)
place-Has base seg x (s ∷ ss) c = elim (Bool-cases (s.sn == seg.sn)) [
  | inl same ↦ absurd (cc (rw same at c))
  | inr other ↦ elim (Bool-cases (ltb (off base seg) (off base s))) [
    | inl before ↦ rw (other, before) (λ h. h, λ h. h)
    | inr behind ↦
        let (to, from) = place-Has base seg x ss (rw other at c) in
        rw (other, behind)
          (
            λ h. elim h [
              | inl e ↦ inr (inl e)
              | inr h ↦ elim (to h) [ inl e ↦ inl e | inr h ↦ inr (inr h) ]
            ],
            λ h. elim h [
              | inl e ↦ inr (from (inl e))
              | inr h ↦ elim h [ inl e ↦ inl e | inr h ↦ inr (from (inr h)) ]
            ],
          )
  ]
]
