-- ===== src/ChatQueue/Invariant.antt =====
-- What every operation of the chat queue's store keeps: the rows of each session stand in ascending
-- order of position, below the session's next position.
use pican.Base.{
  ℕ, suc, ◌≤◌, ◌≡◌, refl, ap, ◌∙◌, ◌≢◌, String, Bool, List, [], ◌∷◌, ◌++◌, none, some, arith,
  str_eq, str_eq_self, eq_iff, if◌then◌else◌, Bool-cases, inl, inr, ok, err, str_eq_iff, ◌⊎◌,
  append-nil, List-cases, Result-cases, str_eq_ne,
}
use pican.ChatQueue.Table.{
  Item, StateRow, Db, of_session, delete_row, delete_session, find_state, ensure_state_row,
  bump_next, upsert_paused, delete_state, order_by_position,
}
use pican.ChatQueue.Rows.{
  Within, Within-wider, filter-Within, append-Within, of_session-append, of_session-delete_row,
  of_session-delete_row_ne, of_session-delete_session, of_session-delete_session_ne,
  find-delete_state_ne,
}
use pican.ChatQueue.Next.{
  next_of, next_of-ensure, ensure-found, next_of-bump, next_of-upsert_paused, find-ensure_ne,
  find-bump_ne, find-upsert_paused_ne,
}
use pican.ChatQueue.{Error, Faults, add, add_tx, remove, pop_head, pop_head_tx, set_paused, clear}

abbrev pub IsOrdered : Db → Type 0
IsOrdered db = (s : String) → Within 0 (next_of s db.states) (of_session s db.items)

pub str-cases : (s t : String) → (s ≡ t) ⊎ (s ≢ t)
str-cases s t = elim (Bool-cases (str_eq s t)) [
  | inl h ↦ inl ((str_eq_iff s t).0 h)
  | inr h ↦ inr (λ e. cc ((str_eq_iff s t).1 e))
]

-- What a successful `Add` has read and written.
pub record Added (now : ℕ) (db : Db) (s message display_text : String) (item : Item) (db' : Db)
    : Type 0 where
  pub given_session : s ≢ ""
  pub given_message : message ≢ ""
  pub row : StateRow
  pub found : find_state s (ensure_state_row s now db.states) ≡ some row
  pub session : item.session_id ≡ s
  pub position : item.position ≡ row.next_position
  pub content : item.message ≡ message
  pub display : item.display_text ≡ (if str_eq display_text "" then message else display_text)
  pub created : item.created_at ≡ now
  pub appended : db'.items ≡ db.items ++ item ∷ []
  pub bumped : db'.states ≡ bump_next s now (ensure_state_row s now db.states)

pub add_tx-Added :
    (faults : Faults) (now : ℕ) (db : Db) (s message display_text : String) (item : Item) (db' : Db)
    → add_tx faults now db s message display_text ≡ ok (item, db')
    → Added now db s message display_text item db'
unfolding add_tx
add_tx-Added faults now db s message display_text item db' e =
    let (row, found) = ensure-found s now db.states in
    ground (arith, found, eq_iff s "", eq_iff message "", eq_iff display_text "")

module _ {now : ℕ} {db db' : Db} {s message display_text : String} {item : Item}
    (a : Added now db s message display_text item db') where
  -- The new position is the session's next one.
  pub Added-position : next_of s db.states ≤ item.position
  Added-position = rw a.position (let h = next_of-ensure s now db.states in rw a.found at h)

  pub Added-next : next_of s db'.states ≡ suc item.position
  Added-next =
      rw (a.bumped, a.position)
        (next_of-bump s now (ensure_state_row s now db.states) a.row a.found ∙ omega arith)

  pub Added-other : (t : String) → s ≢ t → find_state t db'.states ≡ find_state t db.states
  Added-other t h = rw a.bumped (
      find-bump_ne s t now h (ensure_state_row s now db.states)
      ∙ find-ensure_ne s t now h db.states)

  pub Added-rows : of_session s db'.items ≡ of_session s db.items ++ item ∷ []
  Added-rows = rw a.appended (
      of_session-append s db.items (item ∷ [])
      ∙ ap (λ (l : List Item). of_session s db.items ++ l) (rw (a.session, str_eq_self s) refl))

  pub Added-rows_ne : (t : String) → s ≢ t → of_session t db'.items ≡ of_session t db.items
  Added-rows_ne t h =
      rw a.appended (
        of_session-append t db.items (item ∷ []) ∙ (rw (a.session, str_eq_ne s t h) (append-nil _)))

  pub Added-IsOrdered : IsOrdered db → IsOrdered db'
  Added-IsOrdered v t = elim (str-cases s t) [
    | inl e ↦
        rw (← e, Added-rows, Added-next)
          (append-Within 0 (of_session s db.items) item (
            Within-wider 0 0 (next_of s db.states) item.position _ (omega arith) Added-position
              (v s)))
    | inr h ↦ rw (Added-rows_ne t h, Added-other t h) (v t)
  ]

-- No call lowers the next position of a session, `Clear` apart.
pub add-next_le :
    (faults : Faults) (now : ℕ) (db : Db) (s message display_text t : String)
    → next_of t db.states ≤ next_of t (add faults now db s message display_text).1.states
unfolding add
add-next_le faults now db s message display_text t =
    elim (Result-cases (add_tx faults now db s message display_text)) [
      | inr (e, h) ↦ rw h (omega arith)
      | inl ((item, db'), h) ↦
          let a = add_tx-Added faults now db s message display_text item db' h in
          rw h (elim (str-cases s t) [
            | inl e ↦ rw (← e) (omega (arith, Added-position a, Added-next a))
            | inr other ↦ rw (Added-other a t other) (omega arith)
          ])
    ]

pub set_paused-next_le :
    (faults : Faults) (now : ℕ) (db : Db) (s : String) (paused : Bool) (t : String)
    → next_of t db.states ≤ next_of t (set_paused faults now db s paused).1.states
unfolding set_paused
set_paused-next_le faults now db s paused t = ground (arith, upserted (if paused then 1 else 0))
  where
    upserted : (val : ℕ) → next_of t db.states ≤ next_of t (upsert_paused s val now db.states)
    upserted val = elim (str-cases s t) [
      | inl e ↦ rw (← e) (next_of-upsert_paused s now val db.states)
      | inr other ↦ rw (find-upsert_paused_ne s t now other val db.states) (omega arith)
    ]

-- `Add`, whatever the outcome.
pub add-IsOrdered :
    (faults : Faults) (now : ℕ) (db : Db) (s message display_text : String)
    → IsOrdered db
    → IsOrdered (add faults now db s message display_text).1
unfolding add
add-IsOrdered faults now db s message display_text v =
    elim (Result-cases (add_tx faults now db s message display_text)) [
      | inl ((item, db'), e) ↦
          rw e (Added-IsOrdered (add_tx-Added faults now db s message display_text item db' e) v)
      | inr (e, h) ↦ rw h v
    ]

pub delete_row-IsOrdered :
    (db : Db) (s : String) (p : ℕ)
    → IsOrdered db
    → IsOrdered (record db { items = delete_row s p db.items })
delete_row-IsOrdered db s p v t = elim (str-cases s t) [
  | inl e ↦ rw (← e, of_session-delete_row s p db.items) (filter-Within _ 0 _ _ (v s))
  | inr h ↦ rw (of_session-delete_row_ne s t p db.items h) (v t)
]

pub remove-IsOrdered :
    (faults : Faults) (db : Db) (s : String) (p : ℕ)
    → IsOrdered db
    → IsOrdered (remove faults db s p).1
unfolding remove
remove-IsOrdered faults db s p v = ground (arith, delete_row-IsOrdered db s p v)

-- `PopHead` finds no row, fails, or hands out the first row and deletes it.
pub pop_head-cases :
    (faults : Faults) (db : Db) (s : String)
    → ((r : Item) × (rs : List Item) × (order_by_position (of_session s db.items) ≡ r ∷ rs)
        × (pop_head faults db s ≡ (
          ok (some (record r { session_id = s })),
          record db { items = delete_row s r.position db.items },
        )))
      ⊎ ((order_by_position (of_session s db.items) ≡ []) × (pop_head faults db s ≡ (ok none, db)))
      ⊎ ((e : Error) × (pop_head faults db s ≡ (err e, db)))
unfolding pop_head
pop_head-cases faults db s = elim (List-cases (order_by_position (of_session s db.items))) [
  | inl e ↦ elim (Result-cases (pop_head_tx faults db s)) [
    | inl h ↦ inr (inl (e, ground arith))
    | inr (x, h) ↦ inr (inr (x, rw h refl))
  ]
  | inr (r, rs, e) ↦ elim (Result-cases (pop_head_tx faults db s)) [
    | inl h ↦ inl (r, rs, e, ground arith)
    | inr (x, h) ↦ inr (inr (x, rw h refl))
  ]
]

pub pop_head-IsOrdered :
    (faults : Faults) (db : Db) (s : String) → IsOrdered db → IsOrdered (pop_head faults db s).1
pop_head-IsOrdered faults db s v = elim (pop_head-cases faults db s) [
  | inl (r, _, _, e) ↦ rw e (delete_row-IsOrdered db s r.position v)
  | inr (inl (_, e)) ↦ rw e v
  | inr (inr (_, e)) ↦ rw e v
]

pub set_paused-IsOrdered :
    (faults : Faults) (now : ℕ) (db : Db) (s : String) (paused : Bool)
    → IsOrdered db
    → IsOrdered (set_paused faults now db s paused).1
unfolding set_paused
set_paused-IsOrdered faults now db s paused v =
    ground (arith, v, upserted (if paused then 1 else 0))
  where
    upserted : (val : ℕ) → IsOrdered (record db { states = upsert_paused s val now db.states })
    upserted val t = elim (str-cases s t) [
      | inl e ↦ rw (← e) (
          Within-wider 0 0 _ _ (of_session s db.items) (omega arith)
            (next_of-upsert_paused s now val db.states) (v s))
      | inr h ↦ rw (find-upsert_paused_ne s t now h val db.states) (v t)
    ]

pub clear-IsOrdered :
    (faults : Faults) (db : Db) (s : String) → IsOrdered db → IsOrdered (clear faults db s).1
unfolding clear
clear-IsOrdered faults db s v = ground (arith, v, cleared)
  where
    cleared :
        IsOrdered (record { items = delete_session s db.items; states = delete_state s db.states })
    cleared t = elim (str-cases s t) [
      | inl e ↦ rw (← e, of_session-delete_session s db.items) (omega arith)
      | inr h ↦
          rw (of_session-delete_session_ne s t db.items h, find-delete_state_ne s t db.states h)
            (v t)
    ]
