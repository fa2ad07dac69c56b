-- ===== src/Sessions/Branch.antt =====
-- internal/sessions/session.go: ForkSessionFile and CloneSessionFile, which copy the path from an
-- entry back to its root into a new session file. Parameters: `decode` and `encode` are
-- `json.Unmarshal` and `json.Marshal`.

pub mod Walk
pub mod Content
mod Tests
use Prim.Native.String.{◌++◌ as text_append}
use pican.Base.{
  ℕ, zero, suc, ◌+◌, Bool, true, false, not, ◌&&◌, List, [], ◌∷◌, ◌++◌, reverse, map, Option, none,
  some, Result, ok, err, leb, ◌==◌, if◌then◌else◌, length, String, str_eq,
}
use pican.Base.Assoc.{lookup, insert}
use pican.Base.Text.{codes}
use pican.Sessions.Bytes.{trim_bytes}
use pican.Sessions.Names.{encode_project_name}
use pican.Sessions.Json.{Json, Fields, get, text_of}

pub data BranchError : Type 0 where
  not_opened : BranchError
  line_too_long : BranchError
  not_read : BranchError
  missing_cwd : BranchError
  target_not_found : BranchError
  no_directory : BranchError
  no_random : BranchError
  header_not_encoded : BranchError
  not_written : BranchError

-- `bufio.Scanner` over a file: the lines, the last one also without a newline, or an error.
abbrev pub ended : ℕ → Bool → List ℕ → Result BranchError (List (List ℕ))
ended limit broken line =
    if leb limit (length line)
    then err line_too_long
    else if broken
    then err not_read
    else ok (line ∷ [])

abbrev pub with_line :
    List ℕ → Result BranchError (List (List ℕ)) → Result BranchError (List (List ℕ))
with_line line (err e) = err e
with_line line (ok lines) = ok (line ∷ lines)

unfoldable pub scan_lines : ℕ → Bool → List ℕ → List ℕ → Result BranchError (List (List ℕ))
scan_lines limit broken line [] = ended limit broken line
scan_lines limit broken line (b ∷ bs) =
    let next = with_line line (scan_lines limit broken [] bs) in
    let more = scan_lines limit broken (line ++ b ∷ []) bs in
    if b == 10 then if leb limit (length line) then err line_too_long else next else more

-- `id + "\x00" + timestamp + "\x00" + cwd`, and "" where one of the first two is missing.
unfoldable pub session_header_key : Fields → String
session_header_key raw =
    if str_eq (text_of "id" raw) ""
    then ""
    else if str_eq (text_of "timestamp" raw) ""
    then ""
    else text_append (text_of "id" raw) (
        text_append "\0"
          (text_append (text_of "timestamp" raw) (text_append "\0" (text_of "cwd" raw))))

pub record Source : Type 0 where
  pub header : Fields
  pub entries : List Fields
  pub seen_session_headers : List (String × Bool)

abbrev pub is_seen : Option Bool → Bool
is_seen none = false
is_seen (some b) = b

abbrev pub is_session : Json → Bool
is_session (Json.text s) = str_eq s "session"
is_session Json.null = false
is_session (Json.bool b) = false
is_session (Json.number n) = false
is_session (Json.array js) = false
is_session (Json.object fs) = false

unfoldable pub add_line : Fields → Source → Source
unfolding session_header_key
add_line raw s =
    let key = session_header_key raw in
    if is_session (get "type" raw)
    then if str_eq key ""
      then record {
        header = raw;
        entries = s.entries;
        seen_session_headers = s.seen_session_headers;
      }
      else if is_seen (lookup key s.seen_session_headers)
      then s
      else record {
        header = raw;
        entries = s.entries;
        seen_session_headers = insert key true s.seen_session_headers;
      }
    else record {
      header = s.header;
      entries = s.entries ++ raw ∷ [];
      seen_session_headers = s.seen_session_headers;
    }

abbrev pub add_decoded : Option Fields → Source → Source
add_decoded none s = s
add_decoded (some raw) s = add_line raw s

abbrev pub add_trimmed : (List ℕ → Option Fields) → List ℕ → Source → Source
add_trimmed decode [] s = s
add_trimmed decode (b ∷ bs) s = add_decoded (decode (b ∷ bs)) s

unfoldable pub add_lines : (List ℕ → Option Fields) → List (List ℕ) → Source → Source
unfolding trim_bytes add_line
add_lines decode [] s = s
add_lines decode (line ∷ lines) s = add_lines decode lines (add_trimmed decode (trim_bytes line) s)

abbrev pub no_source : Source
no_source = record { header = Fields.empty; entries = []; seen_session_headers = [] }

abbrev pub add_id : String → Fields → List (String × Fields) → List (String × Fields)
add_id id e m = if str_eq id "" then m else insert id e m

abbrev pub index_from : List Fields → List (String × Fields) → List (String × Fields)
index_from [] m = m
index_from (e ∷ es) m = index_from es (add_id (text_of "id" e) e m)

-- `byID`
abbrev pub by_id : List Fields → List (String × Fields)
by_id entries = index_from entries []

abbrev pub with_entry : Fields → Option (List Fields) → Option (List Fields)
with_entry e none = none
with_entry e (some es) = some (e ∷ es)

abbrev pub walk_entry :
    (String → Option (List Fields)) → String → Option Fields → Option (List Fields)
walk_entry next current none = some []
walk_entry next current (some e) =
    let parent = text_of "parentId" e in
    let rest = with_entry e (next parent) in
    if str_eq parent ""
    then some (e ∷ [])
    else if str_eq parent current
    then some (e ∷ [])
    else rest

-- The loop that walks from the target back to the root, the target first; none where it goes on
-- when its fuel is used up.
unfoldable pub walk : ℕ → List (String × Fields) → String → Option (List Fields)
walk zero ids current = none
walk (suc fuel) ids current =
    let here = walk_entry (walk fuel ids) current (lookup current ids) in
    if str_eq current "" then some [] else here

-- What the clock and the random source give, and which calls on the file system fail.
pub record Surroundings : Type 0 where
  pub opens : Bool
  pub broken : Bool
  pub makes_directory : Bool
  pub random_uuid : Option String
  pub file_time : String
  pub header_time : String
  pub writes : Bool

pub record BranchFile : Type 0 where
  pub directory : List ℕ
  pub filename : String
  pub bytes : List ℕ

abbrev pub new_header : Surroundings → String → String → String → String → Bool → Fields
new_header env id cwd source_path target is_fork =
    let forked =
      if is_fork then Fields.field "forkedFrom" (Json.text target) Fields.empty else Fields.empty in
    Fields.field "type" (Json.text "session") (
      Fields.field "version" (Json.number 3) (
        Fields.field "id" (Json.text id) (
          Fields.field "timestamp" (Json.text env.header_time) (
            Fields.field "cwd" (Json.text cwd)
              (Fields.field "parentSession" (Json.text source_path) forked)))))

abbrev pub encoded_line : Option (List ℕ) → List ℕ
encoded_line none = []
encoded_line (some bytes) = bytes ++ 10 ∷ []

abbrev pub encode_all : (Fields → Option (List ℕ)) → List Fields → List ℕ
encode_all encode [] = []
encode_all encode (e ∷ es) = encoded_line (encode e) ++ encode_all encode es

abbrev pub branch_name : Surroundings → String → String
branch_name env id = text_append env.file_time (text_append "_" (text_append id ".jsonl"))

module _ (decode : List ℕ → Option Fields) (encode : Fields → Option (List ℕ)) (limit : ℕ)
    (env : Surroundings) (source_path target : String) (is_fork : Bool) where
  abbrev pub write_branch :
      String → List Fields → String → Option (List ℕ) → Result BranchError BranchFile
  write_branch cwd path id none = err header_not_encoded
  write_branch cwd path id (some header) =
      if env.writes
      then ok (record {
        directory = encode_project_name (codes cwd);
        filename = branch_name env id;
        bytes = header ++ 10 ∷ encode_all encode path;
      })
      else err not_written

  abbrev pub with_uuid : String → List Fields → Option String → Result BranchError BranchFile
  with_uuid cwd path none = err no_random
  with_uuid cwd path (some id) =
      write_branch cwd path id (encode (new_header env id cwd source_path target is_fork))

  -- The entries are here from the target back.
  abbrev pub with_path : String → List Fields → Result BranchError BranchFile
  with_path cwd [] = err target_not_found
  with_path cwd (e ∷ es) =
      if env.makes_directory
      then with_uuid cwd (reverse (e ∷ es)) env.random_uuid
      else err no_directory

  abbrev pub after_walk : String → Option (List Fields) → Option (Result BranchError BranchFile)
  after_walk cwd none = none
  after_walk cwd (some path) = some (with_path cwd path)

  abbrev pub from_source : ℕ → Source → Option (Result BranchError BranchFile)
  from_source fuel s =
      let cwd = text_of "cwd" s.header in
      if str_eq cwd ""
      then some (err missing_cwd)
      else after_walk cwd (walk fuel (by_id s.entries) target)

  abbrev pub from_lines :
      ℕ → Result BranchError (List (List ℕ)) → Option (Result BranchError BranchFile)
  from_lines fuel (err e) = some (err e)
  from_lines fuel (ok lines) = from_source fuel (add_lines decode lines no_source)

  -- `none` where the walk does not end on the given fuel.
  unfoldable pub create_branch_session_file : ℕ → List ℕ → Option (Result BranchError BranchFile)
  unfolding scan_lines add_lines walk encode_project_name
  create_branch_session_file fuel bytes =
      if env.opens
      then from_lines fuel (scan_lines limit env.broken [] bytes)
      else some (err not_opened)
