-- ===== src/Workers/Lifecycle/Shutdown.antt =====
-- What `Close` of internal/workers/manager.go leaves.
use pican.Base.{◌≡◌, true, []}
use pican.Workers.Manager.{Manager}
use pican.Workers.Lifecycle.{World}

-- A closed manager without workers.
abbrev IsShut : World → Type 0
IsShut x = (x.closed ≡ true) × (x.workers ≡ [])
