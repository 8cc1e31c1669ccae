-- ===== src/Addr/Tests.antt =====
-- util/addr/addr.go on a machine with a loopback and two interfaces.
use emt.Common.{◌≡◌, refl, true, false, none, some, [], ◌∷◌, ◌==◌}
use emt.Addr.{Raw, ip_addr, ip_net, other, Interface, Net, ok, extract}
use emt.Addr.Choice.{extract-answer}

abbrev loopback : Interface
loopback = record { is_loopback = true; addrs = some (ip_net (127 ∷ []) ∷ []) }

abbrev broken : Interface
broken = record { is_loopback = false; addrs = none }

abbrev ethernet : Interface
ethernet = record {
  is_loopback = false;
  addrs = some (ip_net (8 ∷ []) ∷ other ∷ ip_addr (10 ∷ []) ∷ []);
}

-- The addresses that begin with 10 and 127 are private.
abbrev machine : Net
machine = record {
  interfaces = some (loopback ∷ broken ∷ ethernet ∷ []);
  parse_ip = λ ip. some ip;
  contains = λ block ip. elim ip [ [] ↦ false | b ∷ bs ↦ b == block ];
  private_blocks = 10 ∷ 127 ∷ [];
}

extract-answer_example : extract machine [] ≡ ok (10 ∷ [])
unfolding emt.Addr.is_explicit emt.Addr.is_private_ip
extract-answer_example =
    extract-answer machine [] (loopback ∷ broken ∷ ethernet ∷ []) refl refl (tt, (tt, (tt, tt)))
