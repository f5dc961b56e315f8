-- ===== src/Dns/Init/Registry.antt =====
-- src/setka/dns_resolver.cpp, `LookupThread::InitDNS` on Windows: the default server from the registry,
-- which is a parameter.
use setka.Prelude.{
  ℕ, suc, ◌≡◌, refl, Bool, Option, none, some, List, [], ◌∷◌, ◌++◌, arith, ◌==◌, if◌then◌else◌,
}
use setka.Utki.{Bytes}
use setka.Address.{Ip, Address}
use setka.Address.Parse.{Inet, parse}
use setka.Dns.Init.{or_else, server}

-- An interface in the registry: whether its key can be opened, and its values, if they can be read. A value
-- ends with a zero byte, and is given without it.
pub record Interface : Type 0 where
  pub opens : Bool
  pub name_server : Option Bytes
  pub dhcp_name_server : Option Bytes

-- `str.substr(0, str.find(' '))`
pub until_space : Bytes → Bytes
until_space [] = []
until_space (c ∷ s) = let rest = until_space s in if c == b' ' then [] else c ∷ rest

-- The address in a value, if it can be read and has one.
pub value_address : Inet → Option Bytes → Option Ip
unfolding until_space
value_address n none = none
value_address n (some str) = parse n (until_space str)

-- The loop over the interfaces, as many as `RegEnumKey` finds: the address, and how many keys of interfaces
-- were opened, and closed.
pub record Found : Type 0 where
  pub address : Option Ip
  pub opened : ℕ
  pub closed : ℕ

-- `RegCloseKey(hSub)`, and `return` if there is an address
abbrev close_key : Option Ip → Found → Found
close_key (some h) f = record { address = some h; opened = 1; closed = 1 }
close_key none f = record { address = f.address; opened = suc f.opened; closed = suc f.closed }

pub read_interfaces : Inet → List Interface → Found
unfolding value_address
read_interfaces n [] = record { address = none; opened = 0; closed = 0 }
read_interfaces n (i ∷ is) =
    let rest = read_interfaces n is in
    if i.opens
    then close_key (or_else (value_address n i.name_server) (value_address n i.dhcp_name_server))
        rest
    else rest

-- The interfaces, or `none` if their key cannot be opened
pub init_dns_windows : Inet → Option (List Interface) → Address
unfolding read_interfaces
init_dns_windows n none = server none
init_dns_windows n (some is) = server (read_interfaces n is).address

-- The values in the order in which they are tried.
abbrev values : List Interface → List (Option Bytes)
values [] = []
values (i ∷ is) = (if i.opens then i.name_server ∷ i.dhcp_name_server ∷ [] else []) ++ values is

-- The first of some values that has an address
abbrev first_address : Inet → List (Option Bytes) → Option Ip
first_address n [] = none
first_address n (v ∷ vs) = or_else (value_address n v) (first_address n vs)

-- The server is the first address among the static and the assigned server of each interface whose key can
-- be opened, in this order, and each key that was opened is closed.
pub read_interfaces_lem :
    (n : Inet) (is : List Interface)
    → let f = read_interfaces n is in
      (f.address ≡ first_address n (values is)) × (f.closed ≡ f.opened)
unfolding read_interfaces
read_interfaces_lem n [] = (refl, refl)
read_interfaces_lem n (i ∷ is) = ground (arith, read_interfaces_lem n is)
