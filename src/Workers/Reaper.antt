-- ===== src/Workers/Reaper.antt =====
-- `reapOnce` of internal/workers/manager.go: which workers it closes.
use pican.Base.{
  ℕ, ◌<◌, ◌≡◌, ◌⊎◌, inl, inr, String, Bool, true, not, List, [], ◌∷◌, some, arith, str_eq,
  str_eq_iff, Bool-cases, filter_by,
}
use pican.Base.Assoc.{lookup}
use pican.Workers.Manager.{running, Report, Manager, pending, reaps, reap_once}

lookup-filter_some :
    (p : String × ℕ → Bool) (k : String) (v : ℕ) (m : List (String × ℕ))
    → lookup k m ≡ some v
    → p (k, v) ≡ true
    → lookup k (filter_by p m) ≡ some v
lookup-filter_some p k v [] e h = cc
lookup-filter_some p k v ((j, w) ∷ m) e h = elim (Bool-cases (str_eq j k)) [
  | inl same ↦
      let key = (str_eq_iff j k).0 same in
      let first : w ≡ v = ground arith in
      let kept : p (j, w) ≡ true = rw (key, first) h in rw (kept, same) (ground arith)
  | inr other ↦ elim (Bool-cases (p (j, w))) [
    | inl kept ↦ rw (kept, other) (lookup-filter_some p k v m (ground arith) h)
    | inr gone ↦ rw gone (lookup-filter_some p k v m (ground arith) h)
  ]
]

-- A worker with a pending send, or that reports it is running, survives the reaper.
pub reap_once_keeps :
    (m : Manager) (view : ℕ → Report) (s : String) (w : ℕ)
    → lookup s m.workers ≡ some w
    → (0 < pending m s) ⊎ ((view w).state ≡ running)
    → lookup s (reap_once m view).0.workers ≡ some w
unfolding reap_once reaps
reap_once_keeps m view s w e h =
    lookup-filter_some (λ b. not (reaps m view b)) s w m.workers e (ground arith)
