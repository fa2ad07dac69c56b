-- ===== src/Workers/Tests.antt =====
-- Runs of the worker manager on small inputs, and its theorems at them.
use pican.Base.{ℕ, ◌+◌, ◌≡◌, refl, true, false, List, [], ◌∷◌, none, some, arith}
use pican.Base.Assoc.{lookup, count}
use pican.Workers.Manager.{
  enter, enter_new, finish, place, reaps, State, idle, error, WorkerStatus, Manager, new_manager,
  send_begin, send_end, pending, cancels, status_of, abort_existing, Report, reap_once,
}
use pican.Workers.Lifecycle.{World, Event, begins, ends, enters, finishes, reaping, apply, run}
use pican.Workers.Sends.{IsCounted, Sends, done, begin, Sends-IsCounted, abort_undercounts}
use pican.Workers.Calls.{answers, Called, worker_for, Sending}

abbrev blank : Manager
unfolding new_manager
blank = new_manager 600

abbrev blank_world : World
blank_world = record { manager = blank; made = []; shut = [] }

abbrev healthy : ℕ → State
healthy w = idle

abbrev idle_long : ℕ → Report
idle_long w = record { state = idle; idle_since = some 601 }

-- Two goroutines ask for one session, the creation is finished, and the worker is reaped.
abbrev history : List Event
history =
    begins "a"
    ∷ enters healthy "a"
    ∷ enters healthy "a"
    ∷ finishes healthy "a" (some 7) none
    ∷ ends "a" 1
    ∷ reaping idle_long
    ∷ enters healthy "b"
    ∷ []

history_closes : (run blank_world history).shut ≡ 7 ∷ []
unfolding new_manager run apply send_begin enter enter_new finish place send_end reap_once reaps
history_closes = refl

abbrev late : List Event
late = finishes healthy "b" (some 8) none ∷ []

abbrev too_late : List Event
too_late = enters healthy "a" ∷ []

blank-IsCounted : IsCounted blank
unfolding new_manager
blank-IsCounted = record {
  matched = λ s. refl;
  single = λ s c. omega arith;
  issued = λ s c h. refl;
}

-- Two sends of one session that overlap.
abbrev both : Manager
both = send_begin (send_begin blank "a") "a"

one_ends : Sends blank (send_end both "a" 1)
unfolding send_begin new_manager
one_ends = begin "a" (begin "a" (Sends.finish "a" 1 refl done))

Sends-IsCounted_example : IsCounted (send_end both "a" 1)
Sends-IsCounted_example = Sends-IsCounted one_ends blank-IsCounted

one_busy : IsCounted (send_begin blank "a")
one_busy = Sends-IsCounted (begin "a" done) blank-IsCounted

abbrev report : ℕ → WorkerStatus
report w = record {
  state = idle;
  error_text = "";
  exit_code = none;
  model = "";
  model_name = "";
  model_provider = "";
  thinking_level = "";
}

registered : count 1 (cancels (send_begin blank "a") "a") ≡ 1
unfolding send_begin new_manager
registered = refl

abort_undercounts_example :
    let m = send_begin blank "a" in
    let m' = send_end (send_begin (abort_existing m "a").0 "a") "a" 1 in
    (pending m' "a" ≡ 0)
    × (count (m.next_send_cancel + 1) (cancels m' "a") ≡ 1)
    × (lookup "a" m.workers ≡ none → (status_of m' report "a").state ≡ idle)
abort_undercounts_example =
    abort_undercounts (send_begin blank "a") report "a" 1 one_busy registered

abbrev two_workers : Manager
two_workers = record blank { workers = ("a", 1) ∷ ("b", 2) ∷ []; pending_sends = ("a", 1) ∷ [] }

abbrev failing : ℕ → State
failing w = error

abbrev refused_send : Sending
refused_send = record {
  done_before = false;
  done_after = true;
  joined = λ call. record { worker = none; failure = none };
  prompt = λ w. none;
}

-- A worker in error is dropped and closed, and a new one takes its place.
abbrev replaced : Called
replaced = record {
  after = record two_workers {
    workers = ("a", 1) ∷ ("b", 9) ∷ [];
    finished = (0, record { worker = some 9; failure = none }) ∷ [];
    next_call = 1;
  };
  answer = answers (some 9) none;
  closes = 2 ∷ [];
}

replaces : worker_for failing (some 9) none 2 two_workers "b" ≡ some replaced
unfolding new_manager worker_for enter enter_new finish place
replaces = refl
