-- ===== src/ChatQueue/History.antt =====
-- Histories of calls of the chat queue's store, and the items that they hand out for dispatch: by
-- `PopHead` (the drainer) and by `Remove` ("send now"), in any interleaving.
pub mod Claims
use pican.Base.{
  ℕ, suc, ◌+◌, ◌≤◌, ◌<◌, ◌≡◌, refl, ap, ◌∙◌, sym, ◌≢◌, String, Bool, true, false, not, List, [],
  ◌∷◌, ◌++◌, Option, none, some, arith, str_eq, str_eq_self, eq_iff, if◌then◌else◌, Bool-cases, inl,
  inr, Option-cases, Result, ok, err, any_by, ◌==◌, str_eq_iff, ◌⊎◌, Result-cases, str_eq_ne,
  filter_by, All, List-cases, subst, ◌&&◌,
}
use pican.ChatQueue.Table.{Item, Db, delete_row, of_session, order_by_position}
use pican.ChatQueue.Rows.{Within, any-outside, any-below, drop_position}
use pican.ChatQueue.Next.{next_of, next_of-upsert_paused, find-upsert_paused_ne}
use pican.ChatQueue.Invariant.{
  IsOrdered, str-cases, add-IsOrdered, remove-IsOrdered, pop_head-IsOrdered, set_paused-IsOrdered,
  add-next_le, set_paused-next_le, pop_head-cases,
}
use pican.ChatQueue.Fifo.{
  queue, queue-rows, add-queue, add-failed, delete-queue, remove-queue, pop_head-queue,
}
use pican.ChatQueue.{Error, Faults, add, add_tx, remove, pop_head, set_paused}

-- A call, with the database failures that it meets and the time it reads.
pub data Call : Type 0 where
  adds : Faults → ℕ → String → String → String → Call
  removes : Faults → String → ℕ → Call
  pops : Faults → String → Call
  pauses : Faults → ℕ → String → Bool → Call

unfoldable pub step : Db → Call → Db
step db (adds faults now s message display_text) = (add faults now db s message display_text).1
step db (removes faults s p) = (remove faults db s p).1
step db (pops faults s) = (pop_head faults db s).1
step db (pauses faults now s paused) = (set_paused faults now db s paused).1

abbrev pub popped : Result Error (Option Item) → List ℕ
popped (ok (some item)) = item.position ∷ []
popped _ = []

abbrev pub removed : Result Error Bool → ℕ → List ℕ
removed (ok true) p = p ∷ []
removed _ p = []

-- The positions of session `s` that a call gives its caller to dispatch.
unfoldable pub claims : String → Db → Call → List ℕ
claims s db (adds _ _ _ _ _) = []
claims s db (removes faults t p) = if str_eq t s then removed (remove faults db t p).0 p else []
claims s db (pops faults t) = if str_eq t s then popped (pop_head faults db t).0 else []
claims s db (pauses _ _ _ _) = []

unfoldable pub run_claims : String → Db → List Call → List ℕ
run_claims s db [] = []
run_claims s db (c ∷ cs) = claims s db c ++ run_claims s (step db c) cs

abbrev pub has_position : ℕ → List Item → Bool
has_position p = any_by (λ r. r.position == p)

-- No number occurs twice.
abbrev pub Distinct : List ℕ → Type 0
Distinct [] = Unit {0}
Distinct (p ∷ ps) = All (λ q. q ≢ p) ps × Distinct ps

pub step-IsOrdered : (db : Db) (c : Call) → IsOrdered db → IsOrdered (step db c)
unfolding step
step-IsOrdered db (adds faults now s message display_text) v =
    add-IsOrdered faults now db s message display_text v
step-IsOrdered db (removes faults s p) v = remove-IsOrdered faults db s p v
step-IsOrdered db (pops faults s) v = pop_head-IsOrdered faults db s v
step-IsOrdered db (pauses faults now s paused) v = set_paused-IsOrdered faults now db s paused v

pub run : Db → List Call → Db
run db [] = db
run db (c ∷ cs) = run (step db c) cs
