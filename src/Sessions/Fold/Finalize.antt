-- ===== src/Sessions/Fold/Finalize.antt =====
-- internal/sessions/session.go: applySummaryContext and finalize, the end of both parses. The name
-- of the project that the directory's name gives, and what the file system answers, are arguments.
use Prim.Native.String.{◌++◌ as text_append}
use pican.Base.{
  ℕ, zero, suc, Bool, true, false, List, [], Option, none, some, String, if◌then◌else◌, leb, str_eq,
}
use pican.Sessions.Json.{Fields}
use pican.Sessions.Fold.{Summary, Context}
use pican.Sessions.Fold.Typed.{PendingTool, SummaryFold}
use pican.Sessions.Fold.Tools.{current_tool}
use pican.Sessions.Fold.Whole.{FileFold}

-- `len([]rune(s))` and `string([]rune(s)[:n])`
abbrev pub rune_count : String → ℕ
rune_count String.[] = 0
rune_count (String.◌∷◌ c s) = suc (rune_count s)

abbrev pub take_runes : ℕ → String → String
take_runes zero s = ""
take_runes (suc n) String.[] = ""
take_runes (suc n) (String.◌∷◌ c s) = String.◌∷◌ c (take_runes n s)

unfoldable pub truncate : String → ℕ → String
truncate s n = if leb (rune_count s) n then s else text_append (take_runes n s) "…"

-- What the file system answers: the time of the file, if it is there, and whether a path is.
pub record Disk : Type 0 where
  pub mod_time : Option String
  pub is_there : String → Bool

-- The fields that are resolved at the end.
pub record Shown : Type 0 where
  pub summary : Summary
  pub name : String
  pub project : String
  pub chat_available : Bool
  pub chat_disabled_reason : String

abbrev pub dated : Option String → Summary → Summary
dated none s = s
dated (some t) s = if str_eq s.last_activity "" then record s { last_activity = t } else s

abbrev pub name_of : Context → String → String
name_of c file_name =
    if str_eq c.session_info_name ""
    then if str_eq c.header_name ""
      then if str_eq c.first_user_text "" then file_name else truncate c.first_user_text 80
      else c.header_name
    else c.session_info_name

abbrev pub chat_disabled_missing_cwd : String
chat_disabled_missing_cwd =
    "This session can be viewed, but chat is disabled because its working directory no longer exists."

unfoldable pub apply_summary_context : Disk → String → String → Summary → Context → Shown
unfolding truncate
apply_summary_context disk project file_name s c =
    let missing =
      if str_eq c.header_cwd ""
      then false
      else if disk.is_there c.header_cwd
      then false
      else true in
    record {
      summary = dated disk.mod_time s;
      name = name_of c file_name;
      project = if str_eq c.header_cwd "" then project else c.header_cwd;
      chat_available = if missing then false else true;
      chat_disabled_reason = if missing then chat_disabled_missing_cwd else "";
    }

-- The tool call that a summary shows.
pub record Activity : Type 0 where
  pub current_activity : String
  pub activity_started_at : String
  pub waiting_question : String
  pub waiting_since : String
  pub waiting_options : List String

abbrev pub activity_of : Option PendingTool → Activity
activity_of none = record {
  current_activity = "";
  activity_started_at = "";
  waiting_question = "";
  waiting_since = "";
  waiting_options = [];
}
activity_of (some tool) = record {
  current_activity = tool.name;
  activity_started_at = tool.started_at;
  waiting_question = tool.question;
  waiting_since = if str_eq tool.question "" then "" else tool.started_at;
  waiting_options = if str_eq tool.question "" then [] else tool.options;
}

module _ (disk : Disk) (project file_name : String) where
  abbrev pub finalize_summary : SummaryFold → Shown × Activity
  finalize_summary fs =
      (apply_summary_context disk project file_name fs.s fs.context, activity_of (current_tool fs))

  abbrev pub finalize_file : FileFold → Shown × Fields × List Fields
  finalize_file ff =
      (apply_summary_context disk project file_name ff.s ff.context, ff.header, ff.entries)
