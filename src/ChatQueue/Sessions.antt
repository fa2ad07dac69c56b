-- ===== src/ChatQueue/Sessions.antt =====
-- Which sessions the drainer of the chat queue is told of, and when `Add` is sure to succeed.
use pican.Base.{
  ℕ, ◌≤◌, ◌≡◌, refl, ◌∙◌, ◌≢◌, String, Bool, true, false, not, List, [], ◌∷◌, some, arith, str_eq,
  str_eq_self, eq_iff, if◌then◌else◌, Bool-cases, inl, inr, ok, any_by, ◌==◌, str_eq_iff,
  Result-cases, str_eq_ne, filter_by, ◌&&◌, map,
}
use pican.ChatQueue.Table.{
  Item, StateRow, Db, of_session, is_row, paused_of, distinct_from, order_by_position, find_state,
  ensure_state_row, delete_state, insert_by_position, has_state, new_state,
}
use pican.ChatQueue.Rows.{find_state-append, has_state-false, any-outside, any-is_row}
use pican.ChatQueue.Next.{next_of, next_of-ensure, ensure-found}
use pican.ChatQueue.Invariant.{IsOrdered, add_tx-Added}
use pican.ChatQueue.Fifo.{queue}
use pican.ChatQueue.{
  begin_tx, ensure_state, read_next_position, bump_next_position, insert_item, commit, Error,
  Faults, add, add_tx, sessions_with_items, scan_ids, scan_session_id, query_sessions,
  iterate_sessions, clear,
}

abbrev pub mem_str : String → List String → Bool
mem_str s = any_by (λ t. str_eq t s)

abbrev pub is_empty {ℓ} : {A : Type ℓ} → List A → Bool
is_empty [] = true
is_empty (x ∷ xs) = false

mem-distinct_from :
    (s : String) (seen ss : List String)
    → mem_str s (distinct_from seen ss) ≡ (mem_str s ss && not (mem_str s seen))
mem-distinct_from s seen [] = refl
mem-distinct_from s seen (t ∷ ss) = ground (
  arith,
  mem-distinct_from s seen ss,
  mem-distinct_from s (t ∷ seen) ss,
  eq_iff t s,
  seen_eq s t seen,
)
  where
    seen_eq : (s t : String) (seen : List String) → t ≡ s → mem_str t seen ≡ mem_str s seen
    seen_eq s t seen e = rw e refl

scan_ids_ok : (faults : Faults) (ss ids : List String) → scan_ids faults ss ≡ ok ids → ids ≡ ss
scan_ids_ok faults [] ids e = ground arith
scan_ids_ok faults (s ∷ ss) ids e = elim (Result-cases (scan_ids faults ss)) [
  | inl (ys, h) ↦ let ih = scan_ids_ok faults ss ys h in ground arith
  | inr h ↦ ground arith
]

scan_ids_sound :
    (faults : Faults) (ss : List String)
    → ((e : Error) → faults e ≡ false)
    → scan_ids faults ss ≡ ok ss
scan_ids_sound faults [] sound = refl
scan_ids_sound faults (s ∷ ss) sound =
    rw (sound scan_session_id, scan_ids_sound faults ss sound) refl

pub sessions_with_items-total :
    (faults : Faults) (db : Db)
    → ((e : Error) → faults e ≡ false)
    → (ids : List String) × (sessions_with_items faults db ≡ ok ids)
unfolding sessions_with_items
sessions_with_items-total faults db sound = (
  distinct_from []
      (map (λ r. r.session_id) (filter_by (λ r. paused_of r.session_id db.states == 0) db.items)),
  rw (sound query_sessions, scan_ids_sound faults _ sound, sound iterate_sessions) refl,
)

is_empty-order : (rs : List Item) → is_empty (order_by_position rs) ≡ is_empty rs
is_empty-order [] = refl
is_empty-order (r ∷ rs) = inserted (order_by_position rs)
  where
    inserted : (xs : List Item) → is_empty (insert_by_position r xs) ≡ false
    inserted [] = refl
    inserted (x ∷ xs) = ground arith

mem-awake :
    (s : String) (states : List StateRow) (rs : List Item)
    → mem_str s (map (λ r. r.session_id) (filter_by (λ r. paused_of r.session_id states == 0) rs))
      ≡ (not (is_empty (of_session s rs)) && paused_of s states == 0)
mem-awake s states [] = refl
mem-awake s states (r ∷ rs) = elim (Bool-cases (str_eq r.session_id s)) [
  | inl h ↦
      let same = (str_eq_iff r.session_id s).0 h in
      rw (same, str_eq_self s) (ground (arith, mem-awake s states rs, str_eq_self s))
  | inr h ↦ ground (arith, mem-awake s states rs)
]

-- The drainer is told of a session exactly if an item waits in it and it is not paused.
pub sessions_with_items_iff :
    (faults : Faults) (db : Db) (ids : List String) (s : String)
    → sessions_with_items faults db ≡ ok ids
    → mem_str s ids ≡ (not (is_empty (queue s db)) && paused_of s db.states == 0)
unfolding sessions_with_items
sessions_with_items_iff faults db ids s e = elim (Result-cases (scan_ids faults awake_ids)) [
  | inr h ↦ ground arith
  | inl (ys, h) ↦
      let same : ids ≡ awake_ids = ground (arith, scan_ids_ok faults awake_ids ys h) in
      rw
        (
          same,
          mem-distinct_from s [] (map (λ r. r.session_id) awake),
          mem-awake s db.states db.items,
          is_empty-order (of_session s db.items),
        )
        (ground arith)
]
  where
    awake : List Item
    awake = filter_by (λ r. paused_of r.session_id db.states == 0) db.items

    awake_ids : List String
    awake_ids = distinct_from [] (map (λ r. r.session_id) awake)

-- With no failing database call, a named session and a message, `Add` succeeds: its position is
-- free, so the primary key never refuses the row.
pub add-total :
    (faults : Faults) (now : ℕ) (db : Db) (s message display_text : String)
    → IsOrdered db
    → ((e : Error) → faults e ≡ false)
    → s ≢ ""
    → message ≢ ""
    → (item : Item) × ((add faults now db s message display_text).0 ≡ ok item)
unfolding add
add-total faults now db s message display_text v sound hs hm =
    let (row, found) = ensure-found s now db.states in
    let above : next_of s db.states ≤ row.next_position =
      (let h = next_of-ensure s now db.states in rw found at h) in
    let free : any_by (is_row s row.next_position) db.items ≡ false =
      any-is_row s row.next_position db.items
      ∙ any-outside 0 (next_of s db.states) row.next_position (of_session s db.items) (v s) above in
    (
      record {
        session_id = s;
        position = row.next_position;
        message = message;
        display_text = if not (str_eq display_text "") then display_text else message;
        created_at = now;
      },
      rw
          (
            str_eq_ne s "" hs,
            str_eq_ne message "" hm,
            sound begin_tx,
            sound ensure_state,
            sound read_next_position,
            found,
            sound bump_next_position,
            sound insert_item,
            free,
            sound commit,
          )
          refl,
    )

has-delete_state : (s : String) (sts : List StateRow) → has_state s (delete_state s sts) ≡ false
has-delete_state s [] = refl
has-delete_state s (x ∷ sts) = ground (arith, has-delete_state s sts)

-- `Clear` forgets how far the positions had come: the next item of the session has position 1,
-- whatever positions were handed out before.
pub clear-add :
    (faults faults' : Faults) (now : ℕ) (db : Db) (s message display_text : String) (item : Item)
    → (clear faults db s).0 ≡ ok tt
    → (add faults' now (clear faults db s).1 s message display_text).0 ≡ ok item
    → item.position ≡ 1
unfolding clear add
clear-add faults faults' now db s message display_text item e h =
    elim (Result-cases (add_tx faults' now (clear faults db s).1 s message display_text)) [
      | inr (_, k) ↦ absurd (ground arith)
      | inl ((x, db'), k) ↦
          let a = add_tx-Added faults' now (clear faults db s).1 s message display_text x db' k in
          let cleared : (clear faults db s).1.states ≡ delete_state s db.states = ground arith in
          let found : find_state s (ensure_state_row s now (delete_state s db.states))
              ≡ some a.row =
            rw (← cleared) a.found in
          let none_left = has-delete_state s db.states in
          let fresh =
            find_state-append s (delete_state s db.states) (new_state s 0 now)
              (has_state-false s _ none_left) in
          ground (arith, a.position, found, none_left, fresh, str_eq_self s)
    ]
