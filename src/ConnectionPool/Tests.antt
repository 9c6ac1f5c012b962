-- ===== src/ConnectionPool/Tests.antt =====
-- A concrete input for the theorem on connection pools.
use gamnet.Prelude.{ℕ, Bool, true, []}
use gamnet.ConnectionPool.{Connections}

abbrev no_databases : Connections ℕ
no_databases = record { infos = []; pools = [] }

abbrev always_up : ℕ → Bool
always_up info = true
