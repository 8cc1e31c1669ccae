-- ===== src/Addr.antt =====
-- util/addr/addr.go: the address under which a server is reached. What the package net gives is a
-- parameter; an address is the string that net makes of it.
pub mod Choice
pub mod Tests
use emt.Common.{
  Bool, true, false, not, ◌&&◌, ◌||◌, Option, none, some, List, [], ◌∷◌, ◌++◌, ℕ, same_bytes,
  if◌then◌else◌,
}
use emt.Registry.{String}

-- An address of an interface: `net.IPAddr`, `net.IPNet` or another type.
pub data Raw : Type 0 where
  ip_addr ip_net : String → Raw
  other : Raw

-- `net.Interface`: whether it is a loopback, and what `Addrs` gives, `none` for an error.
pub record Interface : Type 0 where
  pub is_loopback : Bool
  pub addrs : Option (List Raw)

-- `net.Interfaces`, `none` for an error; the string of what `net.ParseIP` reads, `none` for nil; and
-- `Contains` of a block, on the address that a string stands for.
pub record Net : Type 0 where
  pub interfaces : Option (List Interface)
  pub parse_ip : String → Option String
  pub contains : ℕ → String → Bool
  pub private_blocks : List ℕ

-- `isPrivateIP`; the private blocks are numbers.
abbrev pub is_in : Net → List ℕ → String → Bool
is_in n [] ip = false
is_in n (b ∷ bs) ip = n.contains b ip || is_in n bs ip

unfoldable pub is_private_ip : Net → String → Bool
is_private_ip n ip = is_in n n.private_blocks ip

pub data Error : Type 0 where
  interfaces_failed invalid_addr ip_not_found : Error

pub data Result : Type 0 where
  ok : String → Result
  err : Error → Result

-- "0.0.0.0", "[::]" and "::".
abbrev pub any_v4 : String
any_v4 = 48 ∷ 46 ∷ 48 ∷ 46 ∷ 48 ∷ 46 ∷ 48 ∷ []

abbrev pub any_v6_brackets : String
any_v6_brackets = 91 ∷ 58 ∷ 58 ∷ 93 ∷ []

abbrev pub any_v6 : String
any_v6 = 58 ∷ 58 ∷ []

-- The first test of `Extract`.
unfoldable pub is_explicit : String → Bool
is_explicit [] = false
is_explicit (c ∷ cs) =
    not (same_bytes (c ∷ cs) any_v4)
    && (not (same_bytes (c ∷ cs) any_v6_brackets) && not (same_bytes (c ∷ cs) any_v6))

-- The first loop: the addresses of the interfaces, those of loopbacks apart. An interface that gives
-- an error is left out.
abbrev pub add_addrs : Bool → Option (List Raw) → List Raw × List Raw → List Raw × List Raw
add_addrs is_loopback none (addrs, lo_addrs) = (addrs, lo_addrs)
add_addrs true (some raws) (addrs, lo_addrs) = (addrs, lo_addrs ++ raws)
add_addrs false (some raws) (addrs, lo_addrs) = (addrs ++ raws, lo_addrs)

unfoldable pub collect : List Interface → List Raw × List Raw → List Raw × List Raw
collect [] found = found
collect (i ∷ is) found = collect is (add_addrs i.is_loopback i.addrs found)

-- The second loop, which ends at a private address: `ipAddr` and `publicIP`. The empty string is the
-- variable's first value.
unfoldable pub choose : Net → List Raw → String → String × String
choose n [] public_ip = ([], public_ip)
choose n (other ∷ raws) public_ip = choose n raws public_ip
choose n (ip_addr ip ∷ raws) public_ip =
    let rest = choose n raws ip in if is_private_ip n ip then (ip, public_ip) else rest
choose n (ip_net ip ∷ raws) public_ip =
    let rest = choose n raws ip in if is_private_ip n ip then (ip, public_ip) else rest

abbrev pub parsed : Option String → Result
parsed none = err invalid_addr
parsed (some ip) = ok ip

-- The end of `Extract`.
abbrev pub extract_chosen : Net → String × String → Result
extract_chosen n ([], []) = err ip_not_found
extract_chosen n ([], (c ∷ cs)) = parsed (n.parse_ip (c ∷ cs))
extract_chosen n ((c ∷ cs), public_ip) = parsed (n.parse_ip (c ∷ cs))

abbrev pub extract_from : Net → Option (List Interface) → Result
extract_from n none = err interfaces_failed
extract_from n (some is) =
    let found = collect is ([], []) in extract_chosen n (choose n (found.0 ++ found.1) [])

-- `Extract`.
unfoldable pub extract : Net → String → Result
unfolding is_explicit collect choose
extract n addr = if is_explicit addr then ok addr else extract_from n n.interfaces
