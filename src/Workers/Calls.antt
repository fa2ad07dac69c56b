-- ===== src/Workers/Calls.antt =====
-- The calls of internal/workers/manager.go from beginning to end, when no other goroutine takes the
-- mutex between their critical sections. `status` is what the workers report, `made` and `failed`
-- what the factory returns, and `reply` what a worker answers.
use pican.Base.{
  ℕ, zero, suc, ◌+◌, ◌≡◌, refl, ap, ◌∙◌, inl, inr, String, Bool, true, false, List, [], ◌∷◌, ◌++◌,
  Option, none, some, arith, str_eq, str_eq_self, eq_iff, str_eq_iff, if◌then◌else◌, Bool-cases,
}
use pican.Base.Assoc.{lookup, delete, count, lookup-delete}
use pican.Workers.Manager.{
  State, Failure, manager_closed, context_canceled, nil_worker, Created, Manager, Entry, refused,
  uses, closes_and_retries, joins, creates, Finish, enter, enter_new, finish, pending, cancels,
  send_begin, send_end, without, count_of, items_of,
}
use pican.Workers.Lifecycle.{enter-cases}
use pican.Workers.Sends.{IsCounted, pending-begin, pending-end, cancels-begin, cancels-end}

-- How `workerFor` ends: with a worker and an error, or waiting for another goroutine's creation.
pub data Answer : Type 0 where
  answers : Option ℕ → Option Failure → Answer
  waits : ℕ → Answer

pub record Called : Type 0 where
  pub after : Manager
  pub answer : Answer
  pub closes : List ℕ

abbrev pub also_closes : ℕ → Option Called → Option Called
also_closes w none = none
also_closes w (some c) = some (record c { closes = w ∷ c.closes })

module _ (status : ℕ → State) (made : Option ℕ) (failed : Option Failure) where
  abbrev pub created : Finish → Called
  created r = record {
    after = r.after;
    answer = answers r.result.worker r.result.failure;
    closes = r.closes;
  }

  -- What follows the first critical section; `again` is the next round of the loop.
  abbrev pub respond : Manager → String → Entry → Option Called → Option Called
  respond m s refused again =
      some (record { after = m; answer = answers none (some manager_closed); closes = [] })
  respond m s (uses w) again =
      some (record { after = m; answer = answers (some w) none; closes = [] })
  respond m s (closes_and_retries w) again = also_closes w again
  respond m s (joins call) again = some (record { after = m; answer = waits call; closes = [] })
  respond m s (creates call) again = some (created (finish m status s call made failed))

  -- The loop of `workerFor`, on fuel.
  unfoldable pub worker_for : ℕ → Manager → String → Option Called
  worker_for zero m s = none
  worker_for (suc fuel) m s =
      let (m', entry) = enter m status s in
      let again = worker_for fuel m' s in respond m' s entry again

  abbrev retries : Entry → Bool
  retries (closes_and_retries w) = true
  retries _ = false

  respond-some :
      (m : Manager) (s : String) (entry : Entry) (again : Option Called)
      → retries entry ≡ false
      → (c : Called) × (respond m s entry again ≡ some c)
  respond-some m s refused again h = (_, refl)
  respond-some m s (uses w) again h = (_, refl)
  respond-some m s (closes_and_retries w) again h = cc
  respond-some m s (joins call) again h = (_, refl)
  respond-some m s (creates call) again h = (_, refl)

  enter-free :
      (m : Manager) (s : String) → lookup s m.workers ≡ none → retries (enter m status s).1 ≡ false
  unfolding enter enter_new
  enter-free m s e = ground arith

  -- Without a worker in the map one round is enough.
  worker_for-free :
      (fuel : ℕ) (m : Manager) (s : String)
      → lookup s m.workers ≡ none
      → (c : Called) × (worker_for (suc fuel) m s ≡ some c)
  unfolding worker_for
  worker_for-free fuel m s free =
      respond-some (enter m status s).0 s (enter m status s).1
        (worker_for fuel (enter m status s).0 s) (enter-free m s free)

  pub worker_for-total : (m : Manager) (s : String) → (c : Called) × (worker_for 2 m s ≡ some c)
  unfolding worker_for
  worker_for-total m s = elim (enter-cases m status s) [
    | inl (_, e) ↦ respond-some _ s _ (worker_for 1 (enter m status s).0 s) (rw e refl)
    | inr (inl (w, found, e)) ↦ respond-some _ s _ (worker_for 1 (enter m status s).0 s) (rw e refl)
    | inr (inr (inl (w, found, e))) ↦
        let m' : Manager = record m { workers = delete s m.workers } in
        let (c, h) =
          worker_for-free 0 m' s (ground (arith, lookup-delete s s m.workers, str_eq_self s)) in
        (record c { closes = w ∷ c.closes }, rw (e, worker_for) (ap (also_closes w) h))
    | inr (inr (inr (_, free, e))) ↦ worker_for-free 1 m s free
  ]

-- What `Send` meets: whether the context is done at its two checks, what a creation that it joins
-- ends with, and what the prompt answers.
pub record Sending : Type 0 where
  pub done_before : Bool
  pub done_after : Bool
  pub joined : ℕ → Created
  pub prompt : ℕ → Option Failure

-- A missing worker comes with an error.
abbrev prompt_with : Sending → Option ℕ → Option Failure → Option Failure
prompt_with e w (some f) = some f
prompt_with e none none = some nil_worker
prompt_with e (some w) none = if e.done_after then some context_canceled else e.prompt w

abbrev send_answer : Sending → Answer → Option Failure
send_answer e (answers w f) = prompt_with e w f
send_answer e (waits call) = prompt_with e (e.joined call).worker (e.joined call).failure

-- An id that was not issued yet leaves no trace.
without-fresh : (c : ℕ) (xs : List ℕ) → count c xs ≡ 0 → without c (xs ++ c ∷ []) ≡ xs
without-fresh c [] h = ground arith
without-fresh c (x ∷ xs) h = ground (arith, without-fresh c xs)

-- The marks of sends, which `workerFor` does not touch.
abbrev SameSends : Manager → Manager → Type 0
SameSends m m' =
    (m'.pending_sends ≡ m.pending_sends)
    × (m'.send_cancels ≡ m.send_cancels)
    × (m'.next_send_cancel ≡ m.next_send_cancel)

enter-SameSends : (m : Manager) (status : ℕ → State) (s : String) → SameSends m (enter m status s).0
unfolding enter enter_new
enter-SameSends m status s = (ground arith, ground arith, ground arith)

finish-SameSends :
    (m : Manager) (status : ℕ → State) (s : String) (call : ℕ) (w : Option ℕ) (f : Option Failure)
    → SameSends m (finish m status s call w f).after
unfolding finish
finish-SameSends m status s call w f = (ground arith, ground arith, ground arith)

module _ (status : ℕ → State) (made : Option ℕ) (failed : Option Failure) where
  respond-SameSends :
      (m : Manager) (s : String) (entry : Entry) (again : Option Called) (c : Called)
      → ((d : Called) → again ≡ some d → SameSends m d.after)
      → respond status made failed m s entry again ≡ some c
      → SameSends m c.after
  respond-SameSends m s refused again c ih e = (ground arith, ground arith, ground arith)
  respond-SameSends m s (uses w) again c ih e = (ground arith, ground arith, ground arith)
  respond-SameSends m s (closes_and_retries w) none c ih e = cc
  respond-SameSends m s (closes_and_retries w) (some d) c ih e =
      let (a, b, k) = ih d refl in (ground arith, ground arith, ground arith)
  respond-SameSends m s (joins call) again c ih e = (ground arith, ground arith, ground arith)
  respond-SameSends m s (creates call) again c ih e =
      let (a, b, k) = finish-SameSends m status s call made failed in
      (ground arith, ground arith, ground arith)

  worker_for-SameSends :
      (fuel : ℕ) (m : Manager) (s : String) (c : Called)
      → worker_for status made failed fuel m s ≡ some c
      → SameSends m c.after
  unfolding worker_for
  worker_for-SameSends zero m s c e = cc
  worker_for-SameSends (suc fuel) m s c e =
      let (a, b, k) = enter-SameSends m status s in
      let (a', b', k') =
        respond-SameSends (enter m status s).0 s (enter m status s).1
          (worker_for status made failed fuel (enter m status s).0 s) c
          (λ d h. worker_for-SameSends fuel (enter m status s).0 s d h) e in
      (a' ∙ a, b' ∙ b, k' ∙ k)

  abbrev send_body : Sending → Manager → String → Manager × Option Failure
  send_body e m s =
      if e.done_before
      then (m, some context_canceled)
      else elim (worker_for status made failed 2 m s) [
        | none ↦ (m, none)
        | some c ↦ (c.after, send_answer e c.answer)
      ]

  -- `Send`, with its deferred section last. Two rounds of `workerFor` are enough.
  unfoldable pub send : Sending → Manager → String → Manager × Option Failure
  send e m s =
      let (m', r) = send_body e (send_begin m s) s in (send_end m' s (m.next_send_cancel + 1), r)

  send_body-SameSends : (e : Sending) (m : Manager) (s : String) → SameSends m (send_body e m s).0
  send_body-SameSends e m s = elim (Bool-cases e.done_before) [
    | inl h ↦ rw h (refl, refl, refl)
    | inr h ↦
        let (c, found) = worker_for-total status made failed m s in
        rw (h, found) (worker_for-SameSends 2 m s c found)
  ]

  -- On every path, errors included, `Send` leaves each session's pending count and registered
  -- cancellations as it found them.
  pub send-balanced :
      (e : Sending) (m : Manager) (s t : String)
      → IsCounted m
      → (pending (send e m s).0 t ≡ pending m t) × (cancels (send e m s).0 t ≡ cancels m t)
  unfolding send
  send-balanced e m s t v =
      let m' = (send_body e (send_begin m s) s).0 in
      let (a, b, _) = send_body-SameSends e (send_begin m s) s in
      let c = m.next_send_cancel + 1 in
      let p : (u : String) → pending m' u ≡ pending (send_begin m s) u =
        λ u. ap (λ l. count_of (lookup u l)) a in
      let q : (u : String) → cancels m' u ≡ cancels (send_begin m s) u =
        λ u. ap (λ l. items_of (lookup u l)) b in
      (
        ground (
          arith,
          pending-end m' s t c,
          p s,
          p t,
          pending-begin m s s,
          pending-begin m s t,
          eq_iff s t,
          str_eq_self s,
        ),
        cancels-end m' s t c ∙ elim (Bool-cases (str_eq s t)) [
          | inl h ↦
              rw (h, q s, cancels-begin m s s, str_eq_self s)
                (without-fresh c (cancels m s) (v.issued s c (omega arith))
                  ∙ ap (cancels m) ((str_eq_iff s t).0 h))
          | inr h ↦ rw (h, q t, cancels-begin m s t, h) refl
        ],
      )
