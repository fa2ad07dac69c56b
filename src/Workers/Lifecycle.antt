-- ===== src/Workers/Lifecycle.antt =====
-- Interleavings of the critical sections of internal/workers/manager.go: what becomes of the
-- workers that the factory makes.
pub mod Conserved
pub mod Shutdown
use pican.Base.{
  subst, ℕ, ◌+◌, ◌≡◌, refl, ap, ◌∙◌, sym, ◌≢◌, ◌⊎◌, inl, inr, String, true, false, List, [], ◌∷◌,
  ◌++◌, Option, none, some, arith, str_eq, eq_iff, str_eq_iff, Bool-cases, Option-cases, filter_by,
  All,
}
use pican.Base.Assoc.{
  lookup, insert, delete, values, count, IsMap, lookup-insert, lookup-delete, insert-IsMap,
  delete-IsMap, count-insert, count-delete, count-append, filter-IsMap, lookup-filter_none,
  count-filter,
}
use pican.Workers.Manager.{
  State, Report, Failure, Manager, Entry, refused, uses, closes_and_retries, opt_list, is_error,
  send_begin, send_end, enter, enter_new, finish, place, reaps, reap_once, abort_existing,
  close_begin, close_end,
}

-- The manager, with every worker that the factory made and every worker that was closed.
pub record World : Type 0 where
  pub manager : Manager
  pub open manager use *
  pub made : List ℕ
  pub shut : List ℕ

-- A critical section, with what the environment answers in it.
pub data Event : Type 0 where
  begins : String → Event
  ends : String → ℕ → Event
  enters : (ℕ → State) → String → Event
  finishes : (ℕ → State) → String → Option ℕ → Option Failure → Event
  aborts : String → Event
  reaping : (ℕ → Report) → Event
  close_begins close_ends : Event

abbrev closed_by : Entry → List ℕ
closed_by (closes_and_retries w) = w ∷ []
closed_by _ = []

abbrev pub with_manager : World → Manager → List ℕ → World
with_manager x m ws = record x { manager = m; shut = ws ++ x.shut }

-- The creation of a session ends only if one is in progress.
abbrev finish_world : World → (ℕ → State) → String → Option ℕ → Option Failure → World
finish_world x status s w f = elim (lookup s x.manager.creating) [
  | none ↦ x
  | some call ↦
      let r = finish x.manager status s call w f in
      record { manager = r.after; made = opt_list w ++ x.made; shut = r.closes ++ x.shut }
]

unfoldable pub apply : World → Event → World
apply x (begins s) = with_manager x (send_begin x.manager s) []
apply x (ends s c) = with_manager x (send_end x.manager s c) []
apply x (enters status s) = let (m, e) = enter x.manager status s in with_manager x m (closed_by e)
apply x (finishes status s w f) = finish_world x status s w f
apply x (aborts s) = with_manager x (abort_existing x.manager s).0 []
apply x (reaping view) = let (m, ws) = reap_once x.manager view in with_manager x m ws
apply x close_begins = with_manager x (close_begin x.manager).0 []
apply x close_ends = let (m, ws) = close_end x.manager in with_manager x m ws

unfoldable pub run : World → List Event → World
run x [] = x
run x (e ∷ es) = run (apply x e) es

-- The factory returns no worker together with an error.
abbrev pub Contract : Event → Type 0
Contract (finishes status s (some w) (some f)) = ⊥
Contract _ = Unit {0}

-- One worker and one creation for a session, and not both; and every worker that was made is either
-- in the manager or closed, exactly once.
pub record IsConserved (x : World) : Type 0 where
  pub worker_map : IsMap x.manager.workers
  pub creation_map : IsMap x.manager.creating
  pub apart :
      (s : String) → (lookup s x.manager.creating ≡ none) ⊎ (lookup s x.manager.workers ≡ none)
  pub conserved : (n : ℕ) → count n x.made ≡ count n (values x.manager.workers) + count n x.shut

-- What `workerFor` finds when it takes the mutex.
pub enter-cases :
    (m : Manager) (status : ℕ → State) (s : String)
    → ((m.closed ≡ true) × (enter m status s ≡ (m, refused)))
      ⊎ ((w : ℕ) × (lookup s m.workers ≡ some w) × (enter m status s ≡ (m, uses w)))
      ⊎ ((w : ℕ) × (lookup s m.workers ≡ some w)
          × (enter m status s ≡ (record m { workers = delete s m.workers }, closes_and_retries w)))
      ⊎ ((m.closed ≡ false) × (lookup s m.workers ≡ none) × (enter m status s ≡ enter_new m s))
unfolding enter
enter-cases m status s = elim (Bool-cases m.closed) [
  | inl h ↦ inl (h, ground arith)
  | inr h ↦ elim (Option-cases (lookup s m.workers)) [
    | inl e ↦ inr (inr (inr (h, e, ground arith)))
    | inr (w, e) ↦ elim (Bool-cases (is_error (status w))) [
      | inr k ↦ inr (inl (w, e, ground arith))
      | inl k ↦ inr (inr (inl (w, e, ground arith)))
    ]
  ]
]

-- The end of a creation: the new worker is closed, or takes the session's free place.
pub finish-cases :
    (m : Manager) (status : ℕ → State) (s : String) (call : ℕ) (w : Option ℕ) (f : Option Failure)
    → lookup s m.workers ≡ none
    → Contract (finishes status s w f)
    → let r = finish m status s call w f in
      (r.after.creating ≡ delete s m.creating)
      × (((r.after.workers ≡ m.workers) × (r.closes ≡ opt_list w))
          ⊎ ((v : ℕ) × (m.closed ≡ false)
              × (w ≡ some v)
              × (r.after.workers ≡ insert s v m.workers)
              × (r.closes ≡ [])))
unfolding finish
finish-cases m status s call none none free c = (ground arith, inl (ground arith, ground arith))
finish-cases m status s call none (some f) free c = (ground arith, inl (ground arith, ground arith))
finish-cases m status s call (some w) (some f) free c = absurd c
finish-cases m status s call (some w) none free c = elim (Bool-cases m.closed) [
  | inl h ↦ (ground arith, inl (ground arith, ground arith))
  | inr h ↦ (ground arith, inr (w, h, refl, ground arith, ground arith))
]
