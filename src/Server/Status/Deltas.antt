-- ===== src/Server/Status/Deltas.antt =====
-- What the broadcasts of internal/server/status.go tell about the sessions.
use pican.Base.{◌≡◌, String, Bool, not, List, [], ◌∷◌, str_eq, if◌then◌else◌}
use pican.Server.Status.{Delta}

-- What the broadcasts say of one session, in their order.
abbrev pub said_of : String → List Delta → List Bool
said_of t [] = []
said_of t (d ∷ ds) =
    if str_eq d.payload.id t then d.payload.running ∷ said_of t ds else said_of t ds

-- From `b` to `b'`, each value the opposite of the one before.
abbrev pub Alternates : Bool → List Bool → Bool → Type 0
Alternates b [] b' = b ≡ b'
Alternates b (x ∷ xs) b' = (x ≡ not b) × Alternates x xs b'
