-- ===== src/Addr/Choice.antt =====
-- Which address `Extract` of util/addr/addr.go chooses.
use emt.Common.{
  ◌≡◌, refl, ap, ◌∙◌, inl, inr, Bool, true, false, Bool-cases, Option, none, some, List, [], ◌∷◌,
  ◌++◌, append-nil, append_assoc, All, if◌then◌else◌,
}
use emt.Registry.{String}
use emt.Addr.{
  Raw, ip_addr, ip_net, other, Interface, Net, ip_not_found, Result, err, is_private_ip,
  is_explicit, add_addrs, collect, choose, parsed, extract_chosen, extract_from, extract,
}

-- The addresses of a list, the first private one of them, and the last.
abbrev pub ips : List Raw → List String
ips [] = []
ips (other ∷ raws) = ips raws
ips (ip_addr ip ∷ raws) = ip ∷ ips raws
ips (ip_net ip ∷ raws) = ip ∷ ips raws

abbrev pub first_private : Net → List String → Option String
first_private n [] = none
first_private n (ip ∷ rest) = if is_private_ip n ip then some ip else first_private n rest

abbrev pub last_or : String → List String → String
last_or d [] = d
last_or d (ip ∷ rest) = last_or ip rest

-- The addresses of the interfaces that are loopbacks, or of those that are not.
abbrev pub given : Option (List Raw) → List Raw
given none = []
given (some raws) = raws

abbrev pub addrs_of : Bool → List Interface → List Raw
addrs_of true [] = []
addrs_of false [] = []
addrs_of true (i ∷ is) = (if i.is_loopback then given i.addrs else []) ++ addrs_of true is
addrs_of false (i ∷ is) = (if i.is_loopback then [] else given i.addrs) ++ addrs_of false is

-- The string of an address is not empty.
abbrev pub IsText : String → Type 0
IsText [] = ⊥
IsText (c ∷ cs) = Unit {0}

abbrev pub answer : Net → Option String → String → Result
answer n (some ip) d = parsed (n.parse_ip ip)
answer n none [] = err ip_not_found
answer n none (c ∷ cs) = parsed (n.parse_ip (c ∷ cs))

collect-addrs_of :
    (is : List Interface) (addrs lo : List Raw)
    → collect is (addrs, lo) ≡ (addrs ++ addrs_of false is, lo ++ addrs_of true is)
unfolding collect
collect-addrs_of [] addrs lo = rw (append-nil addrs, append-nil lo) refl
collect-addrs_of (i ∷ is) addrs lo = by_kind (collect-addrs_of is) i.is_loopback i.addrs refl refl
  where
    by_kind :
        ((as' bs' : List Raw)
          → collect is (as', bs') ≡ (as' ++ addrs_of false is, bs' ++ addrs_of true is))
        → (b : Bool) (o : Option (List Raw)) → i.is_loopback ≡ b
        → i.addrs ≡ o
        → collect is (add_addrs i.is_loopback i.addrs (addrs, lo))
          ≡ (addrs ++ addrs_of false (i ∷ is), lo ++ addrs_of true (i ∷ is))
    by_kind ih true none p q = rw (p, q) (ih addrs lo)
    by_kind ih false none p q = rw (p, q) (ih addrs lo)
    by_kind ih true (some raws) p q =
        rw (p, q) (rw (← append_assoc lo raws (addrs_of true is)) (ih addrs (lo ++ raws)))
    by_kind ih false (some raws) p q =
        rw (p, q) (rw (← append_assoc addrs raws (addrs_of false is)) (ih (addrs ++ raws) lo))

text-parsed :
    (n : Net) (ip d : String) → IsText ip → extract_chosen n (ip, d) ≡ parsed (n.parse_ip ip)
text-parsed n [] d t = absurd t
text-parsed n (c ∷ cs) d t = refl

choose-answer :
    (n : Net) (raws : List Raw) (d : String)
    → All IsText (ips raws)
    → extract_chosen n (choose n raws d)
      ≡ answer n (first_private n (ips raws)) (last_or d (ips raws))
unfolding choose
choose-answer n [] [] h = refl
choose-answer n [] (c ∷ cs) h = refl
choose-answer n (other ∷ raws) d h = choose-answer n raws d h
choose-answer n (ip_addr ip ∷ raws) d (t, h) = elim (Bool-cases (is_private_ip n ip)) [
  | inl private ↦ rw private (text-parsed n ip d t)
  | inr public ↦ rw public (choose-answer n raws ip h)
]
choose-answer n (ip_net ip ∷ raws) d (t, h) = elim (Bool-cases (is_private_ip n ip)) [
  | inl private ↦ rw private (text-parsed n ip d t)
  | inr public ↦ rw public (choose-answer n raws ip h)
]

-- Without an explicit address: if the interfaces can be read and no address of theirs is the empty
-- string, the first private address is taken, those of loopbacks last; or else the last address of
-- all; and if there is none, it is an error.
pub extract-answer :
    (n : Net) (addr : String) (is : List Interface)
    → is_explicit addr ≡ false
    → n.interfaces ≡ some is
    → All IsText (ips (addrs_of false is ++ addrs_of true is))
    → extract n addr
      ≡ answer n
          (first_private n (ips (addrs_of false is ++ addrs_of true is)))
          (last_or [] (ips (addrs_of false is ++ addrs_of true is)))
unfolding extract
extract-answer n addr is e q h = rw e (
    ap (extract_from n) q
    ∙ ap (λ (f : List Raw × List Raw). extract_chosen n (choose n (f.0 ++ f.1) []))
        (collect-addrs_of is [] [])
    ∙ choose-answer n (addrs_of false is ++ addrs_of true is) [] h)
