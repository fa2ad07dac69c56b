-- ===== src/Sessions/Fold.antt =====
-- internal/sessions/session.go: what a line of a session file does to the running state of the two
-- parses, of the summary (typed lines) and of the whole session (maps). A number of a line is
-- natural; the cost, a floating-point sum in the code, is a number of some small unit. A key is
-- matched as it is written.
pub mod Typed
pub mod Tools
pub mod Lines
pub mod Whole
pub mod Derived
pub mod Messages
pub mod Agreement
pub mod Finalize
mod Tests
use Prim.Native.String.{◌++◌ as text_append}
use pican.Base.{ℕ, ◌+◌, Bool, true, false, ◌&&◌, List, [], ◌∷◌, String, if◌then◌else◌, str_eq}
use pican.Sessions.Json.{Json, Items, Fields, get, text_of, as_text}

-- The public fields that both parses derive from the lines.
pub record Summary : Type 0 where
  pub session_uuid : String
  pub last_activity : String
  pub message_count : ℕ
  pub token_total : ℕ
  pub cost_total : ℕ
  pub model : String
  pub model_provider : String
  pub runtime : String
  pub native_id : String

-- The names and texts that are resolved at the end.
pub record Context : Type 0 where
  pub header_name : String
  pub session_info_name : String
  pub first_user_text : String
  pub header_cwd : String

abbrev pub new_summary : Summary
new_summary = record {
  session_uuid = "";
  last_activity = "";
  message_count = 0;
  token_total = 0;
  cost_total = 0;
  model = "";
  model_provider = "";
  runtime = "pi";
  native_id = "";
}

abbrev pub new_context : Context
new_context = record {
  header_name = "";
  session_info_name = "";
  first_user_text = "";
  header_cwd = "";
}

-- The second text where the first is empty.
abbrev pub or_text : String → String → String
or_text s t = if str_eq s "" then t else s

-- A value where the decoder wants a text, a truth value or a number; null is none.
abbrev pub is_text : Json → Bool
is_text (Json.text s) = true
is_text Json.null = true
is_text (Json.bool b) = false
is_text (Json.number n) = false
is_text (Json.array js) = false
is_text (Json.object fs) = false

abbrev pub is_bool : Json → Bool
is_bool (Json.bool b) = true
is_bool Json.null = true
is_bool (Json.text s) = false
is_bool (Json.number n) = false
is_bool (Json.array js) = false
is_bool (Json.object fs) = false

abbrev pub is_number : Json → Bool
is_number (Json.number n) = true
is_number Json.null = true
is_number (Json.text s) = false
is_number (Json.bool b) = false
is_number (Json.array js) = false
is_number (Json.object fs) = false

abbrev pub as_bool : Json → Bool
as_bool (Json.bool b) = b
as_bool Json.null = false
as_bool (Json.text s) = false
as_bool (Json.number n) = false
as_bool (Json.array js) = false
as_bool (Json.object fs) = false

abbrev pub as_number : Json → ℕ
as_number (Json.number n) = n
as_number Json.null = 0
as_number (Json.text s) = 0
as_number (Json.bool b) = 0
as_number (Json.array js) = 0
as_number (Json.object fs) = 0

-- The fields of an object, none of another value.
abbrev pub as_object : Json → Fields
as_object (Json.object fs) = fs
as_object Json.null = Fields.empty
as_object (Json.text s) = Fields.empty
as_object (Json.bool b) = Fields.empty
as_object (Json.number n) = Fields.empty
as_object (Json.array js) = Fields.empty

abbrev pub texts_in : List String → Fields → Bool
texts_in [] fs = true
texts_in (k ∷ ks) fs = is_text (get k fs) && texts_in ks fs
