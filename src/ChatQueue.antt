-- ===== src/ChatQueue.antt =====
-- internal/chatqueue/chatqueue.go: the store. Each operation takes `faults`, which says which
-- database calls fail; an error is named for the message that the code gives it.
pub mod Table
mod Rows
mod Next
pub mod Invariant
pub mod Fifo
pub mod History
pub mod Sessions
mod Tests
use pican.Base.{
  ℕ, ◌+◌, String, Bool, true, false, not, ◌&&◌, List, [], ◌∷◌, ◌++◌, map, Option, none, some, ltb,
  ◌==◌, str_eq, if◌then◌else◌, filter_by, any_by, Result, ok, err, ◌>>=◌, ◌>>◌, guard, or_fail,
  attempt, transaction, length,
}
use Table.{
  Item, StateRow, Db, of_session, is_row, delete_row, delete_session, order_by_position, insert_row,
  find_state, ensure_state_row, bump_next, upsert_paused, delete_state, paused_of, distinct_from,
}

pub record Snapshot : Type 0 where
  pub items : List Item
  pub paused : Bool

pub data Error : Type 0 where
  session_id_required message_required : Error
  query_items scan_item iterate_items query_paused : Error
  begin_tx ensure_state read_next_position bump_next_position insert_item commit : Error
  delete_item rows_affected query_head delete_head upsert_paused_failed : Error
  query_sessions scan_session_id iterate_sessions clear_items clear_state : Error

abbrev pub Faults : Type 0
Faults = Error → Bool

abbrev pub Outcome : Type 0 → Type 0
Outcome A = Result Error A

abbrev given : String → Bool
given s = not (str_eq s "")

-- The rows loop of `List`.
abbrev pub scan_items : Faults → String → List Item → Outcome (List Item)
scan_items faults s [] = ok []
scan_items faults s (r ∷ rs) = do
  attempt faults scan_item
  rest ← scan_items faults s rs
  ok (record r { session_id = s } ∷ rest)

unfoldable pub is_paused : Faults → Db → String → Outcome Bool
is_paused faults db s = do
  attempt faults query_paused
  ok (elim (find_state s db.states) [ none ↦ false | some st ↦ not (st.paused == 0) ])

unfoldable pub list : Faults → Db → String → Outcome Snapshot
unfolding is_paused
list faults db s = do
  guard (given s) session_id_required
  attempt faults query_items
  items ← scan_items faults s (order_by_position (of_session s db.items))
  attempt faults iterate_items
  paused ← is_paused faults db s
  ok (record { items = items; paused = paused })

-- The body of `Add`, from its checks to the commit.
unfoldable pub add_tx : Faults → ℕ → Db → String → String → String → Outcome (Item × Db)
add_tx faults now db s message display_text = do
  guard (given s) session_id_required
  guard (given message) message_required
  attempt faults begin_tx
  attempt faults ensure_state
  let states = ensure_state_row s now db.states
  attempt faults read_next_position
  st ← or_fail (find_state s states) read_next_position
  attempt faults bump_next_position
  let item : Item = record {
    session_id = s;
    position = st.next_position;
    message = message;
    display_text = if given display_text then display_text else message;
    created_at = now;
  }
  attempt faults insert_item
  items ← or_fail (insert_row item db.items) insert_item
  attempt faults commit
  ok (item, record { items = items; states = bump_next s now states })

unfoldable pub add : Faults → ℕ → Db → String → String → String → Outcome Item × Db
unfolding add_tx
add faults now db s message display_text =
    transaction db (add_tx faults now db s message display_text)

-- A deletion stays when only the count of the rows cannot be read.
unfoldable pub remove : Faults → Db → String → ℕ → Outcome Bool × Db
remove faults db s p =
    if not (given s)
    then (err session_id_required, db)
    else if faults delete_item
    then (err delete_item, db)
    else if faults rows_affected
    then (err rows_affected, after)
    else (ok (any_by (is_row s p) db.items), after)
  where
    after : Db
    after = record db { items = delete_row s p db.items }

unfoldable pub pop_head_tx : Faults → Db → String → Outcome (Option Item × Db)
pop_head_tx faults db s = do
  guard (given s) session_id_required
  attempt faults begin_tx
  attempt faults query_head
  elim (order_by_position (of_session s db.items)) [
    | [] ↦ ok (none, db)
    | r ∷ _ ↦ do
      attempt faults delete_head
      attempt faults commit
      ok (
        some (record r { session_id = s }),
        record db { items = delete_row s r.position db.items },
      )
  ]

unfoldable pub pop_head : Faults → Db → String → Outcome (Option Item) × Db
unfolding pop_head_tx
pop_head faults db s = transaction db (pop_head_tx faults db s)

unfoldable pub set_paused : Faults → ℕ → Db → String → Bool → Outcome (Unit {0}) × Db
set_paused faults now db s paused =
    if not (given s)
    then (err session_id_required, db)
    else if faults upsert_paused_failed
    then (err upsert_paused_failed, db)
    else (ok tt, record db { states = upsert_paused s (if paused then 1 else 0) now db.states })

abbrev scan_ids : Faults → List String → Outcome (List String)
scan_ids faults [] = ok []
scan_ids faults (s ∷ ss) = do
  attempt faults scan_session_id
  rest ← scan_ids faults ss
  ok (s ∷ rest)

unfoldable pub sessions_with_items : Faults → Db → Outcome (List String)
sessions_with_items faults db = do
  attempt faults query_sessions
  ids ← scan_ids faults (distinct_from [] (map (λ r. r.session_id) awake))
  attempt faults iterate_sessions
  ok ids
  where
    awake : List Item
    awake = filter_by (λ r. paused_of r.session_id db.states == 0) db.items

unfoldable pub clear_tx : Faults → Db → String → Outcome (Unit {0} × Db)
clear_tx faults db s = do
  guard (given s) session_id_required
  attempt faults begin_tx
  attempt faults clear_items
  attempt faults clear_state
  attempt faults commit
  ok (tt, record { items = delete_session s db.items; states = delete_state s db.states })

unfoldable pub clear : Faults → Db → String → Outcome (Unit {0}) × Db
unfolding clear_tx
clear faults db s = transaction db (clear_tx faults db s)
