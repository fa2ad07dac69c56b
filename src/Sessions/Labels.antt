-- ===== src/Sessions/Labels.antt =====
-- internal/sessions/session.go: RenameSession, AutoTitleSession and LabelSessionEntry, which append
-- an entry to a session file. `encode` is `json.Marshal`; what the file system does, the time and a
-- fresh id are arguments.
pub mod Renamed
mod Tests
use Prim.Native.Char.{code}
use pican.Base.{
  ℕ, zero, suc, Bool, true, false, ◌&&◌, List, [], ◌∷◌, ◌++◌, take, Option, none, some, Result, ok,
  err, String, if◌then◌else◌, str_eq,
}
use pican.Base.Text.{is_space}
use pican.Sessions.Bytes.{trim_bytes}
use pican.Sessions.Branch.{BranchError, scan_lines}
use pican.Sessions.Json.{Json, Fields, text_of}

pub data EditError : Type 0 where
  empty_session_name : EditError
  session_entry_not_found : EditError
  not_read : EditError
  no_entry_id : EditError
  not_encoded : EditError
  not_opened : EditError
  not_written : EditError

-- `strings.TrimSpace`
unfoldable pub trim_left : String → String
trim_left String.[] = ""
trim_left (String.◌∷◌ c s) =
    let rest = trim_left s in if is_space (code c) then rest else String.◌∷◌ c s

unfoldable pub trim_right : String → String
trim_right String.[] = ""
trim_right (String.◌∷◌ c s) =
    let rest = trim_right s in if is_space (code c) && str_eq rest "" then "" else String.◌∷◌ c rest

unfoldable pub trim_text : String → String
unfolding trim_left trim_right
trim_text s = trim_right (trim_left s)

-- Whether the file opens to be read and to be written, and where a write that fails breaks off.
pub record Disk : Type 0 where
  pub readable : Bool
  pub opens : Bool
  pub breaks_at : Option ℕ

abbrev pub auto_field : Bool → Fields
auto_field true = Fields.field "autoTitle" (Json.bool true) Fields.empty
auto_field false = Fields.empty

abbrev pub name_entry : String → String → Bool → Fields
name_entry stamp name auto = Fields.field "type" (Json.text "session_info") (
    Fields.field "timestamp" (Json.text stamp)
      (Fields.field "name" (Json.text name) (auto_field auto)))

abbrev pub label_field : String → Fields
label_field label =
    if str_eq label "" then Fields.empty else Fields.field "label" (Json.text label) Fields.empty

abbrev pub label_entry : String → Json → String → String → String → Fields
label_entry id parent stamp target label = Fields.field "type" (Json.text "label") (
    Fields.field "id" (Json.text id) (
      Fields.field "parentId" parent (
        Fields.field "timestamp" (Json.text stamp)
          (Fields.field "targetId" (Json.text target) (label_field label)))))

-- The ids of the entries, and the last of them.
abbrev pub has_id : String → List Fields → Bool
has_id id [] = false
has_id id (e ∷ es) = if str_eq (text_of "id" e) id then true else has_id id es

abbrev pub last_id : Json → List Fields → Json
last_id parent [] = parent
last_id parent (e ∷ es) =
    last_id (if str_eq (text_of "id" e) "" then parent else Json.text (text_of "id" e)) es

-- The lines of a file that decode as objects; `decode` is `json.Unmarshal`.
abbrev pub cons_entry : Option Fields → List Fields → List Fields
cons_entry none entries = entries
cons_entry (some entry) entries = entry ∷ entries

abbrev pub is_empty : List ℕ → Bool
is_empty [] = true
is_empty (b ∷ bs) = false

module _ (decode : List ℕ → Option Fields) (limit : ℕ) where
  abbrev pub entries_of : List (List ℕ) → List Fields
  entries_of [] = []
  entries_of (line ∷ lines) =
      let rest = entries_of lines in
      let trimmed = trim_bytes line in
      if is_empty trimmed then rest else cons_entry (decode trimmed) rest

  abbrev pub scanned : Result BranchError (List (List ℕ)) → Option (List Fields)
  scanned (err e) = none
  scanned (ok lines) = some (entries_of lines)

  -- Whether the file opens to be read, and whether reading it breaks off.
  unfoldable pub load_entries_from_file : Bool → Bool → List ℕ → Option (List Fields)
  load_entries_from_file opens broken bytes =
      if opens then scanned (scan_lines limit broken [] bytes) else none

module _ (encode : Fields → Option (List ℕ)) (disk : Disk) where
  -- The write of a line at the end of the file.
  abbrev pub write_line : Option ℕ → List ℕ → List ℕ → Result EditError (Unit {0}) × List ℕ
  write_line none data' bytes = (ok tt, bytes ++ (data' ++ b'\n' ∷ []))
  write_line (some n) data' bytes = (err not_written, bytes ++ take n (data' ++ b'\n' ∷ []))

  abbrev pub append_encoded : Option (List ℕ) → List ℕ → Result EditError (Unit {0}) × List ℕ
  append_encoded none bytes = (err not_encoded, bytes)
  append_encoded (some data') bytes =
      if disk.opens then write_line disk.breaks_at data' bytes else (err not_opened, bytes)

  unfoldable pub append_session_name :
      String → Bool → String → List ℕ → Result EditError (Unit {0}) × List ℕ
  append_session_name name auto stamp bytes =
      if str_eq (trim_text name) ""
      then (err empty_session_name, bytes)
      else append_encoded (encode (name_entry stamp (trim_text name) auto)) bytes

  abbrev pub rename_session : String → String → List ℕ → Result EditError (Unit {0}) × List ℕ
  rename_session name stamp bytes = append_session_name name false stamp bytes

  abbrev pub auto_title_session : String → String → List ℕ → Result EditError (Unit {0}) × List ℕ
  auto_title_session name stamp bytes = append_session_name name true stamp bytes

  abbrev pub append_label :
      String
      → String
      → String
      → List Fields
      → Option String
      → List ℕ
      → Result EditError (Unit {0}) × List ℕ
  append_label target label stamp entries none bytes = (err no_entry_id, bytes)
  append_label target label stamp entries (some id) bytes =
      append_encoded (encode (label_entry id (last_id Json.null entries) stamp target label)) bytes

  abbrev pub label_loaded :
      String
      → String
      → String
      → Option String
      → Option (List Fields)
      → List ℕ
      → Result EditError (Unit {0}) × List ℕ
  label_loaded target label stamp fresh none bytes = (err not_read, bytes)
  label_loaded target label stamp fresh (some entries) bytes =
      if has_id target entries
      then append_label target label stamp entries fresh bytes
      else (err session_entry_not_found, bytes)

  -- `fresh` is randomEntryID.
  unfoldable pub label_session_entry :
      (List ℕ → Option Fields)
      → ℕ
      → Bool
      → Option String
      → String
      → String
      → String
      → List ℕ
      → Result EditError (Unit {0}) × List ℕ
  label_session_entry decode limit broken fresh target label stamp bytes =
      if str_eq (trim_text target) ""
      then (err session_entry_not_found, bytes)
      else label_loaded (trim_text target) (trim_text label) stamp fresh
          (load_entries_from_file decode limit disk.readable broken bytes) bytes
