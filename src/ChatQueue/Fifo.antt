-- ===== src/ChatQueue/Fifo.antt =====
-- The chat queue's store as first-in first-out queues, one for each session.
use pican.Base.{
  ℕ, suc, ◌≤◌, ◌≡◌, refl, ◌∙◌, sym, ◌≢◌, String, Bool, List, [], ◌∷◌, ◌++◌, none, some, arith,
  str_eq, Bool-cases, inl, inr, ok, err, any_by, ◌==◌, str_eq_iff, ◌⊎◌, Result-cases, All, subst,
}
use pican.ChatQueue.Table.{Item, Db, of_session, delete_row, order_by_position}
use pican.ChatQueue.Rows.{
  Within, order_by_position_lem, any-is_row, drop_position, drop-below, of_session-delete_row,
  of_session-delete_row_ne,
}
use pican.ChatQueue.Next.{next_of}
use pican.ChatQueue.Invariant.{
  IsOrdered, add_tx-Added, Added-IsOrdered, Added-rows, Added-rows_ne, Added-position, Added-next,
  pop_head-cases, delete_row-IsOrdered,
}
use pican.ChatQueue.{Error, Faults, add, add_tx, remove, pop_head}

-- The abstract view: the items that wait in a session, first to leave first.
abbrev pub queue : String → Db → List Item
queue s db = order_by_position (of_session s db.items)

pub queue-rows : (s : String) (db : Db) → IsOrdered db → queue s db ≡ of_session s db.items
queue-rows s db v = order_by_position_lem 0 (next_of s db.states) (of_session s db.items) (v s)

rows-session : (s : String) (rs : List Item) → All (λ r. r.session_id ≡ s) (of_session s rs)
rows-session s [] = tt
rows-session s (r ∷ rs) = elim (Bool-cases (str_eq r.session_id s)) [
  | inl h ↦ rw h ((str_eq_iff r.session_id s).0 h, rows-session s rs)
  | inr h ↦ rw h (rows-session s rs)
]

-- `Add` puts the new item at the end of its session's queue, above every position handed out in
-- that session, and leaves the queues of the other sessions as they were.
pub add-queue :
    (faults : Faults) (now : ℕ) (db : Db) (s message display_text : String) (item : Item)
    → IsOrdered db
    → (add faults now db s message display_text).0 ≡ ok item
    → let db' = (add faults now db s message display_text).1 in
      (queue s db' ≡ queue s db ++ item ∷ [])
      × ((t : String) → s ≢ t → queue t db' ≡ queue t db)
      × (next_of s db.states ≤ item.position)
      × (next_of s db'.states ≡ suc item.position)
unfolding add
add-queue faults now db s message display_text item v e =
    elim (Result-cases (add_tx faults now db s message display_text)) [
      | inr h ↦ absurd (ground arith)
      | inl ((x, db'), h) ↦
          let a = add_tx-Added faults now db s message display_text x db' h in
          let v' = Added-IsOrdered a v in
          let same : x ≡ item = ground arith in
          rw (h, ← same)
            (
              (rw (queue-rows s db' v', queue-rows s db v) (Added-rows a)),
              (λ t other. rw (queue-rows t db' v', queue-rows t db v) (Added-rows_ne a t other)),
              Added-position a,
              Added-next a,
            )
    ]

-- `Add` that fails, at whichever of its database calls, leaves the store as it was.
pub add-failed :
    (faults : Faults) (now : ℕ) (db : Db) (s message display_text : String) (e : Error)
    → (add faults now db s message display_text).0 ≡ err e
    → (add faults now db s message display_text).1 ≡ db
unfolding add
add-failed faults now db s message display_text e h =
    elim (Result-cases (add_tx faults now db s message display_text)) [
      | inl (_, k) ↦ absurd (ground arith)
      | inr (_, k) ↦ rw k refl
    ]

-- The effect of `DELETE` on the queues.
pub delete-queue :
    (db : Db) (s : String) (p : ℕ)
    → IsOrdered db
    → (queue s (record db { items = delete_row s p db.items }) ≡ drop_position p (queue s db))
      × ((t : String)
          → s ≢ t
          → queue t (record db { items = delete_row s p db.items }) ≡ queue t db)
delete-queue db s p v =
    let v' = delete_row-IsOrdered db s p v in
    (
      rw (queue-rows s (record db { items = delete_row s p db.items }) v', queue-rows s db v)
          (of_session-delete_row s p db.items),
      λ t other.
          rw (queue-rows t (record db { items = delete_row s p db.items }) v', queue-rows t db v)
            (of_session-delete_row_ne s t p db.items other),
    )

drop-head :
    (r : Item) (rs : List Item) (hi : ℕ)
    → Within 0 hi (r ∷ rs)
    → drop_position r.position (r ∷ rs) ≡ rs
drop-head r rs hi w = ground (arith, drop-below (suc r.position) hi r.position rs w.1 (omega arith))

-- `Remove` without an error deletes the item of that position and no other, in that session and no
-- other, and reports whether there was one.
pub remove-queue :
    (faults : Faults) (db : Db) (s : String) (p : ℕ) (found : Bool)
    → IsOrdered db
    → (remove faults db s p).0 ≡ ok found
    → let db' = (remove faults db s p).1 in
      (queue s db' ≡ drop_position p (queue s db))
      × ((t : String) → s ≢ t → queue t db' ≡ queue t db)
      × (found ≡ any_by (λ r. r.position == p) (queue s db))
unfolding remove
remove-queue faults db s p found v e =
    let (own, others) = delete-queue db s p v in
    let after : (remove faults db s p).1 ≡ record db { items = delete_row s p db.items } =
      ground arith in
    rw after (own, others, ground (arith, any-is_row s p db.items, queue-rows s db v))

-- `PopHead` takes the first item off its session's queue and leaves the other queues alone; it
-- reports an empty queue exactly as one, and changes nothing then or on an error.
pub pop_head-queue :
    (faults : Faults) (db : Db) (s : String)
    → IsOrdered db
    → let (reply, db') = pop_head faults db s in
      ((item : Item) × (reply ≡ ok (some item))
        × (queue s db ≡ item ∷ queue s db')
        × ((t : String) → s ≢ t → queue t db' ≡ queue t db))
      ⊎ ((reply ≡ ok none) × (queue s db ≡ []) × (db' ≡ db))
      ⊎ ((e : Error) × (reply ≡ err e) × (db' ≡ db))
pop_head-queue faults db s v = elim (pop_head-cases faults db s) [
  | inl (r, rs, front, e) ↦
      let (own, others) = delete-queue db s r.position v in
      let w : Within 0 (next_of s db.states) (r ∷ rs) =
        subst (Within 0 (next_of s db.states)) (sym (queue-rows s db v) ∙ front) (v s) in
      let a : All (λ x. x.session_id ≡ s) (r ∷ rs) =
        subst (All (λ x. x.session_id ≡ s)) (sym (queue-rows s db v) ∙ front)
          (rows-session s db.items) in
      let same : record r { session_id = s } ≡ r = rw (← a.0) refl in
      inl (
        rw e (
          record r { session_id = s },
          refl,
          rw (own, front, drop-head r rs (next_of s db.states) w, same) refl,
          others,
        ))
  | inr (inl (empty, e)) ↦ inr (inl (rw e (refl, empty, refl)))
  | inr (inr (x, e)) ↦ inr (inr (rw e (x, refl, refl)))
]
