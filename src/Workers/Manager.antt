-- ===== src/Workers/Manager.antt =====
-- internal/workers/manager.go: the manager's state and its critical sections. A worker, a pending
-- creation and the cancel function of a send are numbers; each function is what one goroutine does
-- under the mutex, and returns the workers that it then closes.
use pican.Base.{
  ℕ, ◌+◌, ◌-◌, String, Bool, true, false, not, ◌&&◌, List, [], ◌∷◌, ◌++◌, Option, none, some, ltb,
  ◌==◌, if◌then◌else◌, filter_by, length,
}
use pican.Base.Assoc.{lookup, insert, delete, values}

pub data State : Type 0 where
  idle running error : State

abbrev pub is_error : State → Bool
is_error error = true
is_error _ = false

abbrev pub is_idle : State → Bool
is_idle idle = true
is_idle _ = false

pub record WorkerStatus : Type 0 where
  pub state : State
  pub error_text : String
  pub exit_code : Option ℕ
  pub model : String
  pub model_name : String
  pub model_provider : String
  pub thinking_level : String

pub data Failure : Type 0 where
  manager_closed nil_worker factory_failed context_canceled worker_failed : Failure

-- What a finished creation hands to those who wait for it.
pub record Created : Type 0 where
  pub worker : Option ℕ
  pub failure : Option Failure

pub record Manager : Type 0 where
  pub workers : List (String × ℕ)
  pub creating : List (String × ℕ)
  -- The finished creations, by number: those whose `done` is closed.
  pub finished : List (ℕ × Created)
  pub next_call : ℕ
  pub pending_sends : List (String × ℕ)
  pub send_cancels : List (String × List ℕ)
  pub next_send_cancel : ℕ
  pub closed : Bool
  pub idle_ttl : ℕ

-- `NewManagerWithTTL`; the reaper's loop is not part of the state.
unfoldable pub new_manager : ℕ → Manager
new_manager ttl = record {
  workers = [];
  creating = [];
  finished = [];
  next_call = 0;
  pending_sends = [];
  send_cancels = [];
  next_send_cancel = 0;
  closed = false;
  idle_ttl = ttl;
}

abbrev pub count_of : Option ℕ → ℕ
count_of none = 0
count_of (some n) = n

abbrev pub items_of : Option (List ℕ) → List ℕ
items_of none = []
items_of (some xs) = xs

abbrev pub pending : Manager → String → ℕ
pending m s = count_of (lookup s m.pending_sends)

abbrev pub cancels : Manager → String → List ℕ
cancels m s = items_of (lookup s m.send_cancels)

-- The first critical section of `Send`; the new cancel id is `next_send_cancel` of the result.
unfoldable pub send_begin : Manager → String → Manager
send_begin m s = record m {
  pending_sends = insert s (pending m s + 1) m.pending_sends;
  next_send_cancel = m.next_send_cancel + 1;
  send_cancels = insert s (cancels m s ++ (m.next_send_cancel + 1) ∷ []) m.send_cancels;
}

abbrev pub without : ℕ → List ℕ → List ℕ
without c = filter_by (λ x. not (x == c))

abbrev pub put_cancels : String → List ℕ → List (String × List ℕ) → List (String × List ℕ)
put_cancels s [] m = delete s m
put_cancels s (c ∷ cs) m = insert s (c ∷ cs) m

-- The deferred critical section of `Send`.
unfoldable pub send_end : Manager → String → ℕ → Manager
send_end m s c = record m {
  pending_sends =
      if ltb 1 (pending m s)
      then insert s (pending m s - 1) m.pending_sends
      else delete s m.pending_sends;
  send_cancels = put_cancels s (without c (cancels m s)) m.send_cancels;
}

-- What `workerFor` does in its first critical section.
pub data Entry : Type 0 where
  refused : Entry
  uses : ℕ → Entry
  closes_and_retries : ℕ → Entry
  joins : ℕ → Entry
  creates : ℕ → Entry

unfoldable pub enter_new : Manager → String → Manager × Entry
enter_new m s = elim (lookup s m.creating) [
  | some call ↦ (m, joins call)
  | none ↦ (
    record m { creating = insert s m.next_call m.creating; next_call = m.next_call + 1 },
    creates m.next_call,
  )
]

-- `status` is what the workers report at that moment.
unfoldable pub enter : Manager → (ℕ → State) → String → Manager × Entry
unfolding enter_new
enter m status s = if m.closed then (m, refused) else elim (lookup s m.workers) [
  | none ↦ enter_new m s
  | some w ↦
      if is_error (status w)
      then (record m { workers = delete s m.workers }, closes_and_retries w)
      else (m, uses w)
]

-- The answer of a creation, and the workers that it closes.
pub record Finish : Type 0 where
  pub after : Manager
  pub result : Created
  pub closes : List ℕ

abbrev pub opt_list : Option ℕ → List ℕ
opt_list none = []
opt_list (some w) = w ∷ []

abbrev settle : Manager → String → ℕ → Created → Manager
settle m s call c = record m { creating = delete s m.creating; finished = (call, c) ∷ m.finished }

-- A new worker without an error: it is kept unless a healthy one has taken its place.
unfoldable pub place : Manager → (ℕ → State) → String → ℕ → ℕ → Finish
place m status s call w = elim (lookup s m.workers) [
  | none ↦ kept
  | some e ↦ if not (is_error (status e)) then replaced e else kept
]
  where
    kept : Finish
    kept =
        let c : Created = record { worker = some w; failure = none } in
        record {
          after = settle (record m { workers = insert s w m.workers }) s call c;
          result = c;
          closes = [];
        }

    replaced : ℕ → Finish
    replaced e =
        let c : Created = record { worker = some e; failure = none } in
        record { after = settle m s call c; result = c; closes = w ∷ [] }

abbrev pub give_up : Manager → String → ℕ → Option ℕ → Failure → Finish
give_up m s call w f =
    let c : Created = record { worker = w; failure = some f } in
    record { after = settle m s call c; result = c; closes = [] }

-- `err == nil && worker == nil` is an error too.
abbrev pub place_or_fail : Manager → (ℕ → State) → String → ℕ → Option ℕ → Option Failure → Finish
place_or_fail m status s call (some w) none = place m status s call w
place_or_fail m status s call none none = give_up m s call none nil_worker
place_or_fail m status s call w (some f) = give_up m s call w f

-- The second critical section of `workerFor`, with what the factory returned.
unfoldable pub finish : Manager → (ℕ → State) → String → ℕ → Option ℕ → Option Failure → Finish
unfolding place
finish m status s call w f = if m.closed then shut else place_or_fail m status s call w f
  where
    shut : Finish
    shut =
        let c : Created = record { worker = none; failure = some manager_closed } in
        record { after = settle m s call c; result = c; closes = opt_list w }

-- What the reaper reads of a worker: its state, and its idle time if it reports one.
pub record Report : Type 0 where
  pub state : State
  pub idle_since : Option ℕ

abbrev idle_too_long : ℕ → Option ℕ → Bool
idle_too_long ttl none = false
idle_too_long ttl (some t) = ltb ttl t

-- The test of `reapOnce` for one worker.
unfoldable pub reaps : Manager → (ℕ → Report) → String × ℕ → Bool
reaps m view (id, w) =
    if ltb 0 (pending m id)
    then false
    else if is_error (view w).state
    then true
    else is_idle (view w).state && idle_too_long m.idle_ttl (view w).idle_since

unfoldable pub reap_once : Manager → (ℕ → Report) → Manager × List ℕ
unfolding reaps
reap_once m view = (
  record m { workers = filter_by (λ b. not (reaps m view b)) m.workers },
  values (filter_by (reaps m view) m.workers),
)

abbrev blank_status : State → WorkerStatus
blank_status st = record {
  state = st;
  error_text = "";
  exit_code = none;
  model = "";
  model_name = "";
  model_provider = "";
  thinking_level = "";
}

unfoldable pub status_of : Manager → (ℕ → WorkerStatus) → String → WorkerStatus
status_of m report s = elim (lookup s m.workers) [
  | none ↦ blank_status (if ltb 0 (pending m s) then running else idle)
  | some w ↦
      if ltb 0 (pending m s) && is_idle (report w).state
      then record (report w) { state = running }
      else report w
]

-- What `AbortExisting` does under the mutex: the worker to abort, and the sends to cancel.
unfoldable pub abort_existing : Manager → String → Manager × Option ℕ × List ℕ
abort_existing m s = (
  if ltb 0 (length (cancels m s)) then record m { pending_sends = delete s m.pending_sends } else m,
  lookup s m.workers,
  cancels m s,
)

-- The first critical section of `Close`: the creations to wait for.
unfoldable pub close_begin : Manager → Manager × List ℕ
close_begin m = (record m { closed = true }, values m.creating)

-- The second, when those are over: the workers to close.
unfoldable pub close_end : Manager → Manager × List ℕ
close_end m = (record m { workers = [] }, values m.workers)

-- The operations on a worker that exists. `reply` is what the worker answers.
unfoldable pub get_state :
    Manager → (ℕ → Option Failure × WorkerStatus) → String → Option Failure × WorkerStatus
get_state m reply s = elim (lookup s m.workers) [
  | none ↦ (none, blank_status idle)
  | some w ↦ reply w
]

unfoldable pub get_commands {ℓ} : {A : Type ℓ} → Manager → (ℕ → A) → A → String → A × Bool
get_commands m reply nothing s = elim (lookup s m.workers) [
  | none ↦ (nothing, false)
  | some w ↦ (reply w, true)
]
