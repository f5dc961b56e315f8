-- ===== src/Dns.antt =====
-- src/setka/dns_resolver.cpp and dns_resolver.hpp: the lookup of addresses by DNS.
pub mod Ids
pub mod Name
pub mod Query
pub mod Result
pub mod Reply
pub mod Thread
pub mod Client
pub mod Init
pub mod Run
pub mod Locks
pub mod Tests
