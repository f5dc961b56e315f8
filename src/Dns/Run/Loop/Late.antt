-- ===== src/Dns/Run/Loop/Late.antt =====
-- A first request whose time ends behind the wrap of the ticks.
use setka.Utki.{Utki}
use setka.Std.Map
use setka.Address.{Address}
