-- ===== src/Server/Status.antt =====
-- internal/server/status.go: which sessions run, and what the subscribers are told of it.
pub mod Deltas
use pican.Base.{
  String, Bool, true, false, not, ◌&&◌, List, [], ◌∷◌, ◌++◌, Option, none, some, str_eq,
  if◌then◌else◌, filter_by, any_by,
}
use pican.Workers.Manager.{WorkerStatus}
use pican.Server.Drainer.{is_running, kick}

-- What `computeRunningStatus` reads: whether the status file says running, the status of the chat
-- sender if there is one, and whether the session's file changed recently.
pub record Observed : Type 0 where
  pub file_running : Bool
  pub sender : Option WorkerStatus
  pub recent : Bool

abbrev by_worker : Option WorkerStatus → Bool → Bool
by_worker none recent = recent
by_worker (some w) recent =
    if is_running w.state then true else if not (str_eq w.model "") then false else recent

unfoldable pub compute_running : String → Observed → Bool
compute_running s o =
    if str_eq s "" then false else if o.file_running then true else by_worker o.sender o.recent

-- The payload of a status-delta event; a missing key is none.
pub record Payload : Type 0 where
  pub id : String
  pub running : Bool
  pub model : Option String
  pub model_name : Option String
  pub model_provider : Option String

abbrev non_empty : String → Option String
non_empty t = if str_eq t "" then none else some t

abbrev bare : String → Bool → Payload
bare s now = record {
  id = s;
  running = now;
  model = none;
  model_name = none;
  model_provider = none;
}

abbrev described : Payload → Bool → Option WorkerStatus → Payload
described p true (some w) = record p {
  model = non_empty w.model;
  model_name = non_empty w.model_name;
  model_provider = non_empty w.model_provider;
}
described p _ _ = p

-- `runningStatusPayload`, with what the sender says now.
unfoldable pub status_payload : String → Bool → Option WorkerStatus → Payload
status_payload s now sender = described (bare s now) now sender

-- The sessions that were last broadcast as running, and the drainer's channel.
pub record Known : Type 0 where
  pub last_known : List String
  pub channel : List String

abbrev pub mem : String → List String → Bool
mem s = any_by (λ t. str_eq t s)

-- A broadcast, and whether a push notification goes with it.
pub record Delta : Type 0 where
  pub payload : Payload
  pub notifies : Bool

pub record Observation : Type 0 where
  pub session : String
  pub observed : Observed
  pub sender_again : Option WorkerStatus

abbrev changed : Bool → Known → Observation → Bool → Known × Option Delta
changed has_push k e true = (
  record k { last_known = e.session ∷ k.last_known },
  some (record { payload = status_payload e.session true e.sender_again; notifies = false }),
)
changed has_push k e false = (
  record {
    last_known = filter_by (λ t. not (str_eq t e.session)) k.last_known;
    channel = kick k.channel e.session;
  },
  some (record { payload = status_payload e.session false e.sender_again; notifies = has_push }),
)

abbrev same_bool : Bool → Bool → Bool
same_bool true b = b
same_bool false b = not b

abbrev told : Bool → Bool → Known → Observation → Known × Option Delta
told has_push now k e =
    if same_bool now (mem e.session k.last_known) then (k, none) else changed has_push k e now

-- `recomputeAndBroadcastStatus`
unfoldable pub recompute : Bool → Known → Observation → Known × Option Delta
recompute has_push k e =
    if str_eq e.session ""
    then (k, none)
    else told has_push (compute_running e.session e.observed) k e

abbrev pub deltas : Option Delta → List Delta
deltas none = []
deltas (some d) = d ∷ []

unfoldable pub recomputes : Bool → Known → List Observation → Known × List Delta
unfolding recompute
recomputes has_push k [] = (k, [])
recomputes has_push k (e ∷ es) =
    let (k', d) = recompute has_push k e in
    let (k'', ds) = recomputes has_push k' es in (k'', deltas d ++ ds)
