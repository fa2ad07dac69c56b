-- ===== src/SessionCreate/Table.antt =====
-- internal/sessioncreate/store.go: the table hosted_session_creates and the SQL statements that
-- write it. A statement is one atomic step of the database.
use pican.Base.{
  ℕ, suc, String, Bool, true, false, ◌&&◌, List, [], ◌∷◌, ◌++◌, map, Option, str_eq, if◌then◌else◌,
  find_by, any_by,
}

pub data CreateState : Type 0 where
  creating created unknown : CreateState

pub data PromptState : Type 0 where
  not_requested pending dispatching accepted prompt_unknown : PromptState

-- A row of the table; times are numbers.
pub record Record : Type 0 where
  pub key : String
  pub fingerprint : String
  pub create_state : CreateState
  pub session_id : String
  pub runtime : String
  pub native_id : String
  pub prompt_state : PromptState
  pub created_at : ℕ
  pub updated_at : ℕ

abbrev pub Db : Type 0
Db = List Record

abbrev pub is_creating : CreateState → Bool
is_creating creating = true
is_creating _ = false

abbrev pub is_created : CreateState → Bool
is_created created = true
is_created _ = false

abbrev pub is_pending : PromptState → Bool
is_pending pending = true
is_pending _ = false

abbrev pub is_dispatching : PromptState → Bool
is_dispatching dispatching = true
is_dispatching _ = false

-- The statements, with the time that they write.
pub data Statement : Type 0 where
  insert_claim : (now : ℕ) (key fingerprint runtime : String) (has_prompt : Bool) → Statement
  set_created : (now : ℕ) (key fingerprint session_id runtime native_id : String) → Statement
  set_create_unknown : (now : ℕ) (key fingerprint : String) → Statement
  set_dispatching : (now : ℕ) (key fingerprint : String) → Statement
  set_accepted : (now : ℕ) (key fingerprint : String) → Statement
  set_prompt_unknown : (now : ℕ) (key fingerprint : String) → Statement
  recover_creating recover_dispatching : (now : ℕ) → Statement

abbrev pub addressed : String → String → Record → Bool
addressed key fingerprint r = str_eq r.key key && str_eq r.fingerprint fingerprint

-- The WHERE clause of an UPDATE.
unfoldable pub matches : Statement → Record → Bool
matches (insert_claim _ _ _ _ _) r = false
matches (set_created _ k fp _ _ _) r = addressed k fp r && is_creating r.create_state
matches (set_create_unknown _ k fp) r = addressed k fp r && is_creating r.create_state
matches (set_dispatching _ k fp) r =
    addressed k fp r && (is_created r.create_state && is_pending r.prompt_state)
matches (set_accepted _ k fp) r =
    addressed k fp r && (is_created r.create_state && is_dispatching r.prompt_state)
matches (set_prompt_unknown _ k fp) r =
    addressed k fp r && (is_created r.create_state && is_dispatching r.prompt_state)
matches (recover_creating _) r = is_creating r.create_state
matches (recover_dispatching _) r = is_created r.create_state && is_dispatching r.prompt_state

-- Its SET clause.
unfoldable pub assign : Statement → Record → Record
assign (insert_claim _ _ _ _ _) r = r
assign (set_created now _ _ sid rt nid) r = record r {
  create_state = created;
  session_id = sid;
  runtime = rt;
  native_id = nid;
  updated_at = now;
}
assign (set_create_unknown now _ _) r = record r { create_state = unknown; updated_at = now }
assign (set_dispatching now _ _) r = record r { prompt_state = dispatching; updated_at = now }
assign (set_accepted now _ _) r = record r { prompt_state = accepted; updated_at = now }
assign (set_prompt_unknown now _ _) r = record r { prompt_state = prompt_unknown; updated_at = now }
assign (recover_creating now) r = record r { create_state = unknown; updated_at = now }
assign (recover_dispatching now) r = record r { prompt_state = prompt_unknown; updated_at = now }

abbrev pub new_record : ℕ → String → String → String → Bool → Record
new_record now k fp rt has_prompt = record {
  key = k;
  fingerprint = fp;
  create_state = creating;
  session_id = "";
  runtime = rt;
  native_id = "";
  prompt_state = if has_prompt then pending else not_requested;
  created_at = now;
  updated_at = now;
}

abbrev pub find_key : String → Db → Option Record
find_key k = find_by (λ r. str_eq r.key k)

abbrev pub has_key : String → Db → Bool
has_key k = any_by (λ r. str_eq r.key k)

unfoldable pub update_row : Statement → Record → Record
unfolding matches assign
update_row st r = if matches st r then assign st r else r

-- The table after a statement; an INSERT on a taken key does nothing.
unfoldable pub exec : Db → Statement → Db
unfolding update_row
exec db (insert_claim now k fp rt has_prompt) =
    if has_key k db then db else db ++ new_record now k fp rt has_prompt ∷ []
exec db st = map (update_row st) db

abbrev pub count_by : (Record → Bool) → Db → ℕ
count_by p [] = 0
count_by p (r ∷ rs) = if p r then suc (count_by p rs) else count_by p rs

-- `RowsAffected`
unfoldable pub affected : Db → Statement → ℕ
unfolding matches
affected db (insert_claim _ k _ _ _) = if has_key k db then 0 else 1
affected db st = count_by (matches st) db
