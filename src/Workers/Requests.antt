-- ===== src/Workers/Requests.antt =====
-- The calls of internal/workers/manager.go other than `Send`: those that make the worker if there
-- is none, and those that only look at it. `reply` is what the worker answers.
use pican.Base.{
  ℕ, zero, suc, ◌≡◌, refl, inl, inr, String, Bool, true, false, List, [], map, Option, none, some,
  arith, str_eq_self, Bool-cases, Option-cases, ltb, length,
}
use pican.Base.Assoc.{lookup, lookup-insert}
use pican.Workers.Manager.{
  State, Failure, worker_failed, WorkerStatus, Created, Manager, Entry, refused, uses,
  closes_and_retries, joins, creates, finish, place, place_or_fail, is_error, enter, enter_new,
  abort_existing,
}
use pican.Workers.Lifecycle.{enter-cases}
use pican.Workers.Calls.{Answer, answers, waits, Called, respond, worker_for}

-- What follows `workerFor`: its error, or what the worker answers. `joined` is the outcome of a
-- creation that another goroutine finishes. No worker and no error would be a nil pointer; the
-- manager answers with an error then, `nil_worker`.
abbrev then_ask : (ℕ → Option Failure) → Option ℕ → Option Failure → Option Failure
then_ask reply w (some f) = some f
then_ask reply (some w) none = reply w
then_ask reply none none = some worker_failed

abbrev ask : (ℕ → Created) → (ℕ → Option Failure) → Answer → Option Failure
ask joined reply (answers w f) = then_ask reply w f
ask joined reply (waits call) = then_ask reply (joined call).worker (joined call).failure

abbrev asked :
    (ℕ → Created) → (ℕ → Option Failure) → Manager → Option Called → Manager × Option Failure
asked joined reply m none = (m, none)
asked joined reply m (some c) = (c.after, ask joined reply c.answer)

module _ (status : ℕ → State) (made : Option ℕ) (failed : Option Failure)
    (joined : ℕ → Created) where
  -- `SetModel` and `SetThinkingLevel`, the request being part of `reply`.
  unfoldable pub set_model : (ℕ → Option Failure) → Manager → String → Manager × Option Failure
  set_model reply m s = asked joined reply m (worker_for status made failed 2 m s)

  unfoldable pub set_thinking_level :
      (ℕ → Option Failure) → Manager → String → Manager × Option Failure
  set_thinking_level reply m s = asked joined reply m (worker_for status made failed 2 m s)

  unfoldable pub ensure_worker : Manager → String → Manager × Option Failure
  ensure_worker m s = asked joined (λ w. none) m (worker_for status made failed 2 m s)

abbrev aborted : (ℕ → Option Failure) → Option ℕ → List ℕ → Bool × Option Failure
aborted reply none cs = (ltb 0 (length cs), none)
aborted reply (some w) cs = (true, reply w)

-- The answer of `AbortExisting`, and `Abort`, which drops the flag.
unfoldable pub abort_answer : (ℕ → Option Failure) → Manager → String → Bool × Option Failure
abort_answer reply m s = let (_, w, cs) = abort_existing m s in aborted reply w cs

unfoldable pub abort : (ℕ → Option Failure) → Manager → String → Option Failure
abort reply m s = (abort_answer reply m s).1

-- What the optional inspector interface reports; durations are numbers.
pub record Inspection : Type 0 where
  pub pid : ℕ
  pub uptime : Option ℕ
  pub idle_for : ℕ

pub record WorkerSnapshot : Type 0 where
  pub session_id : String
  pub pid : ℕ
  pub state : State
  pub model : String
  pub uptime : ℕ
  pub idle_for : ℕ

abbrev or_zero : Option ℕ → ℕ
or_zero none = 0
or_zero (some n) = n

abbrev inspected : WorkerSnapshot → Option Inspection → WorkerSnapshot
inspected p none = p
inspected p (some i) = record p { pid = i.pid; uptime = or_zero i.uptime; idle_for = i.idle_for }

abbrev snapshot_of : (ℕ → WorkerStatus) → (ℕ → Option Inspection) → String × ℕ → WorkerSnapshot
snapshot_of report inspect (s, w) =
    let p : WorkerSnapshot = record {
      session_id = s;
      pid = 0;
      state = (report w).state;
      model = (report w).model;
      uptime = 0;
      idle_for = 0;
    } in
    inspected p (inspect w)

-- The order is that of the map.
unfoldable pub snapshot :
    Manager → (ℕ → WorkerStatus) → (ℕ → Option Inspection) → List WorkerSnapshot
snapshot m report inspect = map (snapshot_of report inspect) m.workers

-- `requests` answers none for a worker without extension requests.
abbrev requests_of {ℓ} : {A : Type ℓ} → Option (List A) → List A × Bool
requests_of none = ([], true)
requests_of (some rs) = (rs, true)

unfoldable pub pending_extension_ui {ℓ} :
    {A : Type ℓ} → Manager → (ℕ → Option (List A)) → String → List A × Bool
pending_extension_ui m requests s = elim (lookup s m.workers) [
  | none ↦ ([], false)
  | some w ↦ requests_of (requests w)
]

pub data ExtensionReply : Type 0 where
  request_not_found replied : ExtensionReply

unfoldable pub respond_extension_ui :
    Manager → (ℕ → Option ExtensionReply) → String → ExtensionReply
respond_extension_ui m reply s = elim (lookup s m.workers) [
  | none ↦ request_not_found
  | some w ↦ elim (reply w) [ none ↦ request_not_found | some a ↦ a ]
]

place-kept :
    (m : Manager) (status : ℕ → State) (s : String) (call v w : ℕ)
    → (place m status s call v).result ≡ record { worker = some w; failure = none }
    → lookup s (place m status s call v).after.workers ≡ some w
unfolding place
place-kept m status s call v w h = elim (Option-cases (lookup s m.workers)) [
  | inl e ↦ ground (arith, e, lookup-insert s s v m.workers, str_eq_self s)
  | inr (u, e) ↦ elim (Bool-cases (is_error (status u))) [
    | inl k ↦ ground (arith, e, k, lookup-insert s s v m.workers, str_eq_self s)
    | inr k ↦ ground (arith, e, k)
  ]
]

place_or_fail-kept :
    (m : Manager) (status : ℕ → State) (s : String) (call : ℕ) (made : Option ℕ)
    (failed : Option Failure) (w : ℕ)
    → (place_or_fail m status s call made failed).result
      ≡ record { worker = some w; failure = none }
    → lookup s (place_or_fail m status s call made failed).after.workers ≡ some w
place_or_fail-kept m status s call (some v) none w h = place-kept m status s call v w h
place_or_fail-kept m status s call none none w h = absurd (ground arith)
place_or_fail-kept m status s call made (some f) w h = absurd (ground arith)

-- The answer of a creation that is finished is in the map.
finish-kept :
    (m : Manager) (status : ℕ → State) (s : String) (call : ℕ) (made : Option ℕ)
    (failed : Option Failure) (w : ℕ)
    → (finish m status s call made failed).result ≡ record { worker = some w; failure = none }
    → lookup s (finish m status s call made failed).after.workers ≡ some w
unfolding finish
finish-kept m status s call made failed w h = elim (Bool-cases m.closed) [
  | inl e ↦ absurd (ground arith)
  | inr e ↦
      let same : finish m status s call made failed ≡ place_or_fail m status s call made failed =
        ground arith in
      rw same (place_or_fail-kept m status s call made failed w (rw same at h))
]

module _ (status : ℕ → State) (made : Option ℕ) (failed : Option Failure) where
  respond-kept :
      (m : Manager) (s : String) (entry : Entry) (again : Option Called) (c : Called) (w : ℕ)
      → ((v : ℕ) → entry ≡ uses v → lookup s m.workers ≡ some v)
      → ((d : Called)
          → again ≡ some d
          → d.answer ≡ answers (some w) none
          → lookup s d.after.workers ≡ some w)
      → respond status made failed m s entry again ≡ some c
      → c.answer ≡ answers (some w) none
      → lookup s c.after.workers ≡ some w
  respond-kept m s refused again c w found ih e h = absurd (ground arith)
  respond-kept m s (uses v) again c w found ih e h = ground (arith, found v refl)
  respond-kept m s (closes_and_retries v) none c w found ih e h = absurd (ground arith)
  respond-kept m s (closes_and_retries v) (some d) c w found ih e h =
      ground (arith, ih d refl (ground arith))
  respond-kept m s (joins call) again c w found ih e h = absurd (ground arith)
  respond-kept m s (creates call) again c w found ih e h =
      let r = finish m status s call made failed in
      let answered : answers r.result.worker r.result.failure ≡ answers (some w) none = cc in
      let result : r.result ≡ record { worker = some w; failure = none } = cc in
      let after : c.after ≡ r.after = cc in
      ground (arith, finish-kept m status s call made failed w result)

  enter-uses :
      (m : Manager) (s : String) (v : ℕ)
      → (enter m status s).1 ≡ uses v
      → lookup s (enter m status s).0.workers ≡ some v
  unfolding enter enter_new
  enter-uses m s v h = elim (enter-cases m status s) [
    | inl (_, e) ↦ absurd (ground arith)
    | inr (inl (w, found, e)) ↦ ground arith
    | inr (inr (inl (w, found, e))) ↦ absurd (ground arith)
    | inr (inr (inr (_, free, e))) ↦ absurd (ground arith)
  ]

  -- A worker that `workerFor` answers with is the one that the manager then has for the session.
  pub worker_for-kept :
      (fuel : ℕ) (m : Manager) (s : String) (c : Called) (w : ℕ)
      → worker_for status made failed fuel m s ≡ some c
      → c.answer ≡ answers (some w) none
      → lookup s c.after.workers ≡ some w
  unfolding worker_for
  worker_for-kept zero m s c w e h = cc
  worker_for-kept (suc fuel) m s c w e h =
      respond-kept (enter m status s).0 s (enter m status s).1
        (worker_for status made failed fuel (enter m status s).0 s) c w (enter-uses m s)
        (λ d e' h'. worker_for-kept fuel (enter m status s).0 s d w e' h') e h
