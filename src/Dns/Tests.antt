-- ===== src/Dns/Tests.antt =====
-- Runs of the DNS modules on small inputs, and their theorems at inputs that meet the hypotheses.
mod Packets
mod Calls
mod Rounds
mod Loops
mod Files
