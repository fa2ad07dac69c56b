-- ===== src/Server/Tests.antt =====
-- Runs of the drainer and of the status broadcasts on small inputs, and their theorems at them.
use pican.Base.{ok, String, ◌≡◌, refl, true, false, List, [], ◌∷◌, none, some, arith}
use pican.ChatQueue.Table.{Db, Item}
use pican.ChatQueue.Invariant.{IsOrdered}
use pican.ChatQueue.{Faults, is_paused, pop_head, pop_head_tx, sessions_with_items}
use pican.Workers.Manager.{WorkerStatus, idle, running}
use pican.Server.Drainer.{
  Surroundings, drain_session, drain_all, drain_each, may_dispatch, kick, Drainer, Wake, kicks,
  ticks, wake, wakes,
}
use pican.Server.Drainer.Conserved.{sent_to}
use pican.Server.Drainer.Progress.{drain_all-sends}
use pican.Server.Status.{
  Observed, compute_running, Known, Observation, recompute, recomputes, status_payload,
}
use pican.Server.Status.Deltas.{said_of}

abbrev sound : Faults
sound _ = false

abbrev item : Item
item = record {
  session_id = "s";
  position = 1;
  message = "hello";
  display_text = "hello";
  created_at = 5;
}

abbrev next_item : Item
next_item = record item { position = 2; message = "again" }

abbrev two_items : Db
two_items = record {
  items = item ∷ next_item ∷ [];
  states = record { session_id = "s"; paused = 0; next_position = 3; updated_at = 5 } ∷ [];
}

two_items-IsOrdered : IsOrdered two_items
two_items-IsOrdered s = ground arith

abbrev around : Surroundings
around = record {
  has_queue = true;
  has_sender = true;
  status = λ s. idle;
  resolve = λ s. some (record { path = "/p"; runtime = "pi"; chat_available = true });
  capable = λ r c. true;
  workspace_valid = λ r. true;
}

abbrev drainer : Drainer
drainer = record { channel = []; db = two_items; sent = [] }

abbrev one_tick : List Wake
one_tick = ticks around sound ∷ kicks "s" ∷ []

one_sent :
    (wakes drainer one_tick).sent ≡ record { session = "s"; path = "/p"; message = "hello" } ∷ []
unfolding wakes wake drain_all drain_each drain_session may_dispatch is_paused pop_head pop_head_tx
    sessions_with_items kick
one_sent = refl

passes :
    may_dispatch around sound two_items "s"
    ≡ ok (record { path = "/p"; runtime = "pi"; chat_available = true })
unfolding may_dispatch is_paused
passes = refl

drain_all-sends_example :
    (rest : List String) × (sent_to "s" (drain_all around sound two_items).0 ≡ "hello" ∷ rest)
drain_all-sends_example =
    drain_all-sends around sound (λ e. refl) two_items "s"
      (record { path = "/p"; runtime = "pi"; chat_available = true }) "hello" ("again" ∷ [])
      two_items-IsOrdered passes refl

abbrev worker : WorkerStatus
worker = record {
  state = idle;
  error_text = "";
  exit_code = none;
  model = "m";
  model_name = "";
  model_provider = "";
  thinking_level = "";
}

abbrev active : Observed
active = record {
  file_running = false;
  sender = some (record worker { state = running });
  recent = true;
}

abbrev over : Observed
over = record { file_running = false; sender = some worker; recent = true }

abbrev observations : List Observation
observations =
    record { session = "s"; observed = active; sender_again = none }
    ∷ record { session = "s"; observed = active; sender_again = none }
    ∷ record { session = "s"; observed = over; sender_again = some worker }
    ∷ []

abbrev nothing_known : Known
nothing_known = record { last_known = []; channel = [] }

up_and_down : said_of "s" (recomputes true nothing_known observations).1 ≡ true ∷ false ∷ []
unfolding recomputes recompute compute_running status_payload kick
up_and_down = refl
