-- ===== src/Dns/Tests/Files.antt =====
-- A resolv.conf with a comment and a server.
use setka.Prelude.{◌⊎◌, All, ◌≡◌, some, List, [], ◌∷◌, ◌++◌, arith}
use setka.Utki.{Bytes}
use setka.Address.{Ip, of_v4}
use setka.Address.Tests.{inet, host4}
use setka.Dns.Init.{ns, init_dns}
use setka.Dns.Init.Lines.{unlines, GivesNone, IsFirst, init_dns-unlines}

abbrev lines : List Bytes
lines = (b'#' ∷ b' ' ∷ []) ∷ [] ∷ (ns ++ host4) ∷ []

init_dns-unlines_example :
    ((h : Ip) × IsFirst inet lines h
      × (init_dns inet (some (unlines lines)) ≡ record { host = h; port = 53 }))
    ⊎ (All (GivesNone inet) lines
        × (init_dns inet (some (unlines lines)) ≡ record { host = of_v4 0; port = 0 }))
init_dns-unlines_example = init_dns-unlines inet lines (omega arith)
