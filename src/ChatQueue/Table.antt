-- ===== src/ChatQueue/Table.antt =====
-- internal/chatqueue/chatqueue.go: the two tables, and what the store's SQL statements do to them.
-- A table is the list of its rows in the order in which they were inserted.
use pican.Base.{
  ℕ, ◌+◌, String, Bool, not, ◌&&◌, List, [], ◌∷◌, ◌++◌, map, Option, none, some, leb, ◌==◌, str_eq,
  if◌then◌else◌, filter_by, any_by, find_by,
}

-- `Item`, a row of chat_queue_items. A time is a number, given by the caller.
pub record Item : Type 0 where
  pub session_id : String
  pub position : ℕ
  pub message : String
  pub display_text : String
  pub created_at : ℕ

-- A row of chat_queue_state; `paused` is an INTEGER column.
pub record StateRow : Type 0 where
  pub session_id : String
  pub paused : ℕ
  pub next_position : ℕ
  pub updated_at : ℕ

pub record Db : Type 0 where
  pub items : List Item
  pub states : List StateRow

-- `WHERE session_id = ?`
abbrev pub of_session : String → List Item → List Item
of_session s = filter_by (λ r. str_eq r.session_id s)

abbrev pub is_row : String → ℕ → Item → Bool
is_row s p r = str_eq r.session_id s && r.position == p

-- `DELETE FROM chat_queue_items WHERE session_id = ? AND position = ?`
abbrev pub delete_row : String → ℕ → List Item → List Item
delete_row s p = filter_by (λ r. not (is_row s p r))

abbrev pub delete_session : String → List Item → List Item
delete_session s = filter_by (λ r. not (str_eq r.session_id s))

-- `ORDER BY position ASC`
abbrev pub insert_by_position : Item → List Item → List Item
insert_by_position r [] = r ∷ []
insert_by_position r (x ∷ xs) =
    if leb r.position x.position then r ∷ x ∷ xs else x ∷ insert_by_position r xs

abbrev pub order_by_position : List Item → List Item
order_by_position [] = []
order_by_position (r ∷ rs) = insert_by_position r (order_by_position rs)

-- An INSERT into chat_queue_items; it fails on the primary key (session_id, position).
abbrev pub insert_row : Item → List Item → Option (List Item)
insert_row r items =
    if any_by (is_row r.session_id r.position) items then none else some (items ++ r ∷ [])

abbrev pub find_state : String → List StateRow → Option StateRow
find_state s = find_by (λ st. str_eq st.session_id s)

abbrev pub update_state : String → (StateRow → StateRow) → List StateRow → List StateRow
update_state s f = map (λ st. if str_eq st.session_id s then f st else st)

abbrev pub has_state : String → List StateRow → Bool
has_state s = any_by (λ st. str_eq st.session_id s)

-- The row that the store inserts for a session.
abbrev pub new_state : String → ℕ → ℕ → StateRow
new_state s val now = record { session_id = s; paused = val; next_position = 1; updated_at = now }

-- `INSERT … ON CONFLICT(session_id) DO NOTHING`
abbrev pub ensure_state_row : String → ℕ → List StateRow → List StateRow
ensure_state_row s now states =
    if has_state s states then states else states ++ new_state s 0 now ∷ []

-- `UPDATE … SET next_position = next_position + 1, updated_at = ?`
abbrev pub bump_next : String → ℕ → List StateRow → List StateRow
bump_next s now =
    update_state s (λ st. record st { next_position = st.next_position + 1; updated_at = now })

-- `INSERT … ON CONFLICT(session_id) DO UPDATE SET paused, updated_at`
abbrev pub upsert_paused : String → ℕ → ℕ → List StateRow → List StateRow
upsert_paused s val now states =
    if has_state s states
    then update_state s (λ st. record st { paused = val; updated_at = now }) states
    else states ++ new_state s val now ∷ []

abbrev pub delete_state : String → List StateRow → List StateRow
delete_state s = filter_by (λ st. not (str_eq st.session_id s))

-- `COALESCE(st.paused, 0)` of the LEFT JOIN on the session's state row.
abbrev pub paused_of : String → List StateRow → ℕ
paused_of s states = elim (find_state s states) [ none ↦ 0 | some st ↦ st.paused ]

-- `SELECT DISTINCT`: the first occurrences.
abbrev pub distinct_from : List String → List String → List String
distinct_from seen [] = []
distinct_from seen (s ∷ ss) =
    let rest = distinct_from seen ss in
    let next = s ∷ distinct_from (s ∷ seen) ss in
    if any_by (λ t. str_eq t s) seen then rest else next
