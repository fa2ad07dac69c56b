-- ===== src/Server/Drainer.antt =====
-- internal/server/chat_queue_drainer.go, on the database of the chat queue. What the rest of the
-- server answers is an argument; a dispatch is the call of `Send` that the drainer starts.
pub mod Conserved
pub mod Progress
use pican.Base.{
  ℕ, String, Bool, true, false, not, ◌&&◌, List, [], ◌∷◌, ◌++◌, Option, none, some, ltb, str_eq,
  if◌then◌else◌, length, Result, ok, err, ◌>>=◌, ◌>>◌, guard, or_fail,
}
use pican.ChatQueue.Table.{Item, Db}
use pican.ChatQueue.{Error, Faults, is_paused, pop_head, sessions_with_items}
use pican.Workers.Manager.{State, running}

-- What the drainer reads of a resolved session, its availability applied.
pub record Resolved : Type 0 where
  pub path : String
  pub runtime : String
  pub chat_available : Bool

pub record Surroundings : Type 0 where
  pub has_queue : Bool
  pub has_sender : Bool
  pub status : String → State
  pub resolve : String → Option Resolved
  pub capable : String → String → Bool
  pub workspace_valid : Resolved → Bool

-- Why a session is passed over.
pub data Skip : Type 0 where
  no_session not_configured pause_unreadable paused still_running unresolved : Skip
  no_queue_capability no_chat_capability chat_unavailable workspace_invalid : Skip

abbrev pub is_running : State → Bool
is_running running = true
is_running _ = false

abbrev readable : Result Error Bool → Result Skip Bool
readable (ok b) = ok b
readable (err e) = err pause_unreadable

-- The checks of `drainSession` before it touches the queue.
unfoldable pub may_dispatch : Surroundings → Faults → Db → String → Result Skip Resolved
may_dispatch around faults db s = do
  guard (not (str_eq s "")) no_session
  guard (around.has_queue && around.has_sender) not_configured
  is_held ← readable (is_paused faults db s)
  guard (not is_held) paused
  guard (not (is_running (around.status s))) still_running
  r ← or_fail (around.resolve s) unresolved
  guard (around.capable r.runtime "persistent queue") no_queue_capability
  guard (around.capable r.runtime "chat") no_chat_capability
  guard r.chat_available chat_unavailable
  guard (around.workspace_valid r) workspace_invalid
  ok r

pub record Dispatch : Type 0 where
  pub session : String
  pub path : String
  pub message : String

abbrev send_head : String → Resolved → Result Error (Option Item) × Db → Option Dispatch × Db
send_head s r (err e, db) = (none, db)
send_head s r (ok none, db) = (none, db)
send_head s r (ok (some item), db) =
    (some (record { session = s; path = r.path; message = item.message }), db)

unfoldable pub drain_session : Surroundings → Faults → Db → String → Option Dispatch × Db
unfolding may_dispatch
drain_session around faults db s = elim (may_dispatch around faults db s) [
  | err skip ↦ (none, db)
  | ok r ↦ send_head s r (pop_head faults db s)
]

abbrev pub sends : Option Dispatch → List Dispatch
sends none = []
sends (some d) = d ∷ []

unfoldable pub drain_each : Surroundings → Faults → Db → List String → List Dispatch × Db
unfolding drain_session
drain_each around faults db [] = ([], db)
drain_each around faults db (s ∷ ss) =
    let (o, db') = drain_session around faults db s in
    let (os, db'') = drain_each around faults db' ss in (sends o ++ os, db'')

unfoldable pub drain_all : Surroundings → Faults → Db → List Dispatch × Db
unfolding drain_each
drain_all around faults db =
    if not around.has_queue then ([], db) else elim (sessions_with_items faults db) [
      | err e ↦ ([], db)
      | ok ids ↦ drain_each around faults db ids
    ]

-- `kick`: a send on the channel, which holds 64 ids, or nothing.
unfoldable pub kick : List String → String → List String
kick channel s =
    if str_eq s "" then channel else if ltb (length channel) 64 then channel ++ s ∷ [] else channel

-- The drainer with what it has sent.
pub record Drainer : Type 0 where
  pub channel : List String
  pub db : Db
  pub sent : List Dispatch

-- A kick, and the two ways in which the loop of `run` wakes up.
pub data Wake : Type 0 where
  kicks : String → Wake
  receives ticks : Surroundings → Faults → Wake

abbrev received : Drainer → Surroundings → Faults → List String → Drainer
received d around faults [] = d
received d around faults (s ∷ ss) =
    let (o, db') = drain_session around faults d.db s in
    record { channel = ss; db = db'; sent = d.sent ++ sends o }

unfoldable pub wake : Drainer → Wake → Drainer
unfolding kick drain_session drain_all
wake d (kicks s) = record d { channel = kick d.channel s }
wake d (receives around faults) = received d around faults d.channel
wake d (ticks around faults) =
    let (os, db') = drain_all around faults d.db in record d { db = db'; sent = d.sent ++ os }

unfoldable pub wakes : Drainer → List Wake → Drainer
unfolding wake
wakes d [] = d
wakes d (w ∷ ws) = wakes (wake d w) ws
