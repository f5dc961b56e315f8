-- ===== src/Dns/Result.antt =====
-- src/setka/dns_resolver.hpp, `dns_result`, and `ParseResult` of src/setka/dns_resolver.cpp.
use setka.Prelude.{Option, none, some}
use setka.Address.{Ip, of_quads}

pub data DnsResult : Type 0 where
  ok timeout not_found dns_error error : DnsResult

pub record ParseResult : Type 0 where
  pub result : DnsResult
  pub host : Ip

-- `address::ip(0, 0, 0, 0)`, the default
abbrev pub no_host : Ip
no_host = of_quads 0 0 0 0

-- `ParseResult(result)`
abbrev pub failure : DnsResult → ParseResult
failure r = record { result = r; host = no_host }

-- `dns_resolver::on_completed`, with `completed_handler` as what it makes of a state, if it is set
abbrev pub on_completed {ℓ} :
    {S : Type ℓ} → Option (DnsResult → Ip → S → S) → DnsResult → Ip → S → S
on_completed none res address s = s
on_completed (some completed_handler) res address s = completed_handler res address s
