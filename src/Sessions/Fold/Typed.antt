-- ===== src/Sessions/Fold/Typed.antt =====
-- internal/sessions/session.go: summaryFoldState, the fold of typed lines.
use Prim.Native.String.{◌++◌ as text_append}
use pican.Base.{
  ℕ, Bool, true, false, ◌&&◌, List, [], ◌∷◌, Option, none, some, String, if◌then◌else◌, str_eq,
}
use pican.Sessions.Json.{Json, Items, Fields, get, text_of}
use pican.Sessions.Fold.{
  Summary, Context, new_summary, new_context, is_text, is_bool, is_number, as_bool, as_number,
  as_object, texts_in,
}

pub record SummaryMsg : Type 0 where
  pub role : String
  pub provider : String
  pub model : String
  pub content : Json
  pub tool_call_id : String
  pub awaiting_chat_reply : Bool
  pub total_tokens : ℕ
  pub cost : ℕ

pub record SummaryLine : Type 0 where
  pub kind : String
  pub timestamp : String
  pub name : String
  pub cwd : String
  pub id : String
  pub provider : String
  pub model_id : String
  pub model : String
  pub model_provider : String
  pub runtime : String
  pub native_id : String
  pub message : Option SummaryMsg

abbrev pub is_details : Json → Bool
is_details (Json.object fs) = is_bool (get "awaitingChatReply" fs)
is_details Json.null = true
is_details (Json.text s) = false
is_details (Json.bool b) = false
is_details (Json.number n) = false
is_details (Json.array js) = false

abbrev pub is_cost : Json → Bool
is_cost (Json.object fs) = is_number (get "total" fs)
is_cost Json.null = true
is_cost (Json.text s) = false
is_cost (Json.bool b) = false
is_cost (Json.number n) = false
is_cost (Json.array js) = false

abbrev pub is_usage : Json → Bool
is_usage (Json.object fs) = is_number (get "totalTokens" fs) && is_cost (get "cost" fs)
is_usage Json.null = true
is_usage (Json.text s) = false
is_usage (Json.bool b) = false
is_usage (Json.number n) = false
is_usage (Json.array js) = false

abbrev pub is_message : Json → Bool
is_message (Json.object m) =
    texts_in ("role" ∷ "provider" ∷ "model" ∷ "toolCallId" ∷ []) m
    && is_details (get "details" m)
    && is_usage (get "usage" m)
is_message Json.null = true
is_message (Json.text s) = false
is_message (Json.bool b) = false
is_message (Json.number n) = false
is_message (Json.array js) = false

abbrev pub message_of : Json → Option SummaryMsg
message_of (Json.object m) = some (record {
  role = text_of "role" m;
  provider = text_of "provider" m;
  model = text_of "model" m;
  content = get "content" m;
  tool_call_id = text_of "toolCallId" m;
  awaiting_chat_reply = as_bool (get "awaitingChatReply" (as_object (get "details" m)));
  total_tokens = as_number (get "totalTokens" (as_object (get "usage" m)));
  cost = as_number (get "total" (as_object (get "cost" (as_object (get "usage" m)))));
})
message_of Json.null = none
message_of (Json.text s) = none
message_of (Json.bool b) = none
message_of (Json.number n) = none
message_of (Json.array js) = none

abbrev pub line_texts : List String
line_texts =
    "type" ∷ "timestamp" ∷ "name" ∷ "cwd" ∷ "id" ∷ "provider" ∷ "modelId" ∷ "model"
    ∷ "modelProvider" ∷ "runtime" ∷ "nativeId" ∷ []

-- Whether `json.Unmarshal` into a `summaryLine` succeeds.
unfoldable pub is_typed : Fields → Bool
is_typed fs =
    texts_in line_texts fs && is_bool (get "autoTitle" fs) && is_message (get "message" fs)

abbrev pub typed_line : Fields → SummaryLine
typed_line fs = record {
  kind = text_of "type" fs;
  timestamp = text_of "timestamp" fs;
  name = text_of "name" fs;
  cwd = text_of "cwd" fs;
  id = text_of "id" fs;
  provider = text_of "provider" fs;
  model_id = text_of "modelId" fs;
  model = text_of "model" fs;
  model_provider = text_of "modelProvider" fs;
  runtime = text_of "runtime" fs;
  native_id = text_of "nativeId" fs;
  message = message_of (get "message" fs);
}

unfoldable pub summary_line_of : Fields → Option SummaryLine
unfolding is_typed
summary_line_of fs = if is_typed fs then some (typed_line fs) else none

-- The texts of the blocks of type "text", if each value is a block.
abbrev pub add_block : Fields → Option String → Option String
add_block b none = none
add_block b (some rest) =
    if is_text (get "type" b) && is_text (get "text" b)
    then some
        (if str_eq (text_of "type" b) "text" then text_append (text_of "text" b) rest else rest)
    else none

abbrev pub block_texts : Items → Option String
block_texts Items.end = some ""
block_texts (Items.item (Json.object b) js) = add_block b (block_texts js)
block_texts (Items.item Json.null js) = block_texts js
block_texts (Items.item (Json.text s) js) = none
block_texts (Items.item (Json.bool b) js) = none
block_texts (Items.item (Json.number n) js) = none
block_texts (Items.item (Json.array x) js) = none

abbrev pub or_empty : Option String → String
or_empty none = ""
or_empty (some s) = s

unfoldable pub extract_raw_text : Json → String
extract_raw_text (Json.text s) = s
extract_raw_text (Json.array js) = or_empty (block_texts js)
extract_raw_text Json.null = ""
extract_raw_text (Json.bool b) = ""
extract_raw_text (Json.number n) = ""
extract_raw_text (Json.object fs) = ""

pub record PendingTool : Type 0 where
  pub name : String
  pub started_at : String
  pub question : String
  pub options : List String

pub record SummaryFold : Type 0 where
  pub s : Summary
  pub context : Context
  pub pending_tools : List (String × PendingTool)
  pub pending_tool_order : List String

abbrev pub new_summary_fold : SummaryFold
new_summary_fold = record {
  s = new_summary;
  context = new_context;
  pending_tools = [];
  pending_tool_order = [];
}
