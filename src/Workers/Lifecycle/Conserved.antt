-- ===== src/Workers/Lifecycle/Conserved.antt =====
-- What every critical section of internal/workers/manager.go keeps of the workers and creations.
use pican.Base.{
  subst, ℕ, ◌+◌, ◌≡◌, refl, ap, sym, ◌≢◌, inl, inr, String, List, [], ◌++◌, Option, none, some,
  arith, str_eq, eq_iff, str_eq_iff, Bool-cases, Option-cases, filter_by,
}
use pican.Base.Assoc.{
  lookup, insert, delete, values, count, IsMap, lookup-insert, lookup-delete, insert-IsMap,
  delete-IsMap, count-insert, count-delete, count-append, filter-IsMap, lookup-filter_none,
  count-filter,
}
use pican.Workers.Manager.{
  State, Report, Failure, Manager, opt_list, send_begin, send_end, enter_new, finish, place, reaps,
  reap_once, abort_existing, close_begin, close_end,
}
use pican.Workers.Lifecycle.{
  World, Event, begins, ends, enters, finishes, aborts, reaping, close_begins, close_ends,
  closed_by, with_manager, finish_world, apply, Contract, IsConserved, enter-cases, finish-cases,
}

-- Events that leave the two maps alone.
same_maps :
    {x : World} (m : Manager)
    → m.workers ≡ x.manager.workers
    → m.creating ≡ x.manager.creating
    → IsConserved x
    → IsConserved (with_manager x m [])
same_maps m e f v = record {
  worker_map = rw e v.worker_map;
  creation_map = rw f v.creation_map;
  apart = λ s. rw (e, f) (v.apart s);
  conserved = λ n. rw e (v.conserved n);
}

enter_new-closes : (s : String) (m : Manager) → closed_by (enter_new m s).1 ≡ []
unfolding enter_new
enter_new-closes s m = ground arith

enter_new-IsConserved :
    (x : World) (s : String)
    → lookup s x.manager.workers ≡ none
    → IsConserved x
    → IsConserved (with_manager x (enter_new x.manager s).0 [])
unfolding enter_new
enter_new-IsConserved x s free v = elim (Option-cases (lookup s x.manager.creating)) [
  | inr (c, e) ↦ rw (e, enter_new) v
  | inl e ↦
      rw (e, enter_new)
        (record {
          worker_map = v.worker_map;
          creation_map = insert-IsMap s x.next_call x.creating v.creation_map;
          apart = λ t.
              ground (arith, lookup-insert s t x.next_call x.creating, eq_iff s t, v.apart t, free);
          conserved = v.conserved;
        })
]

enters-IsConserved :
    (x : World) (status : ℕ → State) (s : String)
    → IsConserved x
    → IsConserved (apply x (enters status s))
unfolding apply
enters-IsConserved x status s v = elim (enter-cases x.manager status s) [
  | inl (_, e) ↦ rw (e, apply) v
  | inr (inl (_, _, e)) ↦ rw (e, apply) v
  | inr (inr (inl (w, found, e))) ↦
      rw (e, apply)
        (record {
          worker_map = delete-IsMap s x.workers v.worker_map;
          creation_map = v.creation_map;
          apart = λ t. ground (arith, lookup-delete s t x.workers, v.apart t);
          conserved =
              λ n. ground (arith, v.conserved n, count-delete n s w x.workers v.worker_map found);
        })
  | inr (inr (inr (_, free, e))) ↦
      rw (e, apply)
        (subst IsConserved
          (ap (λ ws. with_manager x (enter_new x.manager s).0 ws)
            (sym (enter_new-closes s x.manager)))
          (enter_new-IsConserved x s free v))
]

settle-IsConserved :
    (x : World) (s : String) (w : Option ℕ) (ws : List (String × ℕ)) (m : Manager) (closes : List ℕ)
    → m.workers ≡ ws
    → m.creating ≡ delete s x.creating
    → IsMap ws
    → ((t : String) → t ≢ s → lookup t ws ≡ lookup t x.workers)
    → ((n : ℕ)
        → count n (opt_list w) + count n (values x.workers) ≡ count n (values ws) + count n closes)
    → IsConserved x
    → IsConserved (record { manager = m; made = opt_list w ++ x.made; shut = closes ++ x.shut })
settle-IsConserved x s w ws m closes e f k others balance v = record {
  worker_map = rw e k;
  creation_map = rw f (delete-IsMap s x.creating v.creation_map);
  apart = λ t.
      rw (e, f)
        (elim (Bool-cases (str_eq s t)) [
          | inl h ↦ inl (ground (arith, lookup-delete s t x.creating))
          | inr h ↦
              let other : t ≢ s = λ same. cc (h, (str_eq_iff s t).1 (sym same)) in
              rw (others t other, lookup-delete s t x.creating, h) (v.apart t)
        ]);
  conserved = λ n. rw e (
      omega (
        arith,
        v.conserved n,
        balance n,
        count-append n (opt_list w) x.made,
        count-append n closes x.shut,
      ));
}

finish-IsConserved :
    (x : World) (status : ℕ → State) (s : String) (call : ℕ) (w : Option ℕ) (f : Option Failure)
    → lookup s x.creating ≡ some call
    → Contract (finishes status s w f)
    → IsConserved x
    → let r = finish x.manager status s call w f in
      IsConserved
        (record { manager = r.after; made = opt_list w ++ x.made; shut = r.closes ++ x.shut })
finish-IsConserved x status s call w f busy c v =
    let free : lookup s x.workers ≡ none = ground (arith, v.apart s) in
    let r = finish x.manager status s call w f in
    let (cleared, place) = finish-cases x.manager status s call w f free c in
    elim place [
      | inl (same, closes) ↦
          settle-IsConserved x s w x.workers r.after r.closes same cleared v.worker_map
            (λ t _. refl) (λ n. rw closes (omega arith)) v
      | inr (u, _, made, kept, closes) ↦
          settle-IsConserved x s w (insert s u x.workers) r.after r.closes kept cleared
            (insert-IsMap s u x.workers v.worker_map)
            (λ t other. ground (arith, lookup-insert s t u x.workers, eq_iff s t))
            (λ n. rw (closes, made) (omega (arith, count-insert n s u x.workers free))) v
    ]

reaping-IsConserved :
    (x : World) (view : ℕ → Report) → IsConserved x → IsConserved (apply x (reaping view))
unfolding apply reap_once
reaping-IsConserved x view v = record {
  worker_map = filter-IsMap _ x.workers v.worker_map;
  creation_map = v.creation_map;
  apart =
      λ s. elim (v.apart s) [ inl e ↦ inl e | inr e ↦ inr (lookup-filter_none _ s x.workers e) ];
  conserved = λ n. omega (
    arith,
    v.conserved n,
    count-filter n (reaps x.manager view) x.workers,
    count-append n (values (filter_by (reaps x.manager view) x.workers)) x.shut,
  );
}

pub apply-IsConserved :
    (x : World) (e : Event) → Contract e → IsConserved x → IsConserved (apply x e)
unfolding apply send_begin send_end abort_existing close_begin close_end
apply-IsConserved x (begins s) c v = same_maps (send_begin x.manager s) refl refl v
apply-IsConserved x (ends s k) c v = same_maps (send_end x.manager s k) refl refl v
apply-IsConserved x (enters status s) c v = enters-IsConserved x status s v
apply-IsConserved x (finishes status s w f) c v = elim (Option-cases (lookup s x.creating)) [
  | inl e ↦ rw (e, apply, finish_world) v
  | inr (call, e) ↦ rw (e, apply, finish_world) (finish-IsConserved x status s call w f e c v)
]
apply-IsConserved x (aborts s) c v =
    same_maps (abort_existing x.manager s).0 (ground arith) (ground arith) v
apply-IsConserved x (reaping view) c v = reaping-IsConserved x view v
apply-IsConserved x close_begins c v = same_maps (close_begin x.manager).0 refl refl v
apply-IsConserved x close_ends c v = record {
  worker_map = tt;
  creation_map = v.creation_map;
  apart = λ s. inr refl;
  conserved = λ n. omega (arith, v.conserved n, count-append n (values x.workers) x.shut);
}
