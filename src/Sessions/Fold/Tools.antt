-- ===== src/Sessions/Fold/Tools.antt =====
-- internal/sessions/session.go: foldToolActivity, the tool calls that are pending in a summary.
use pican.Base.{
  Bool, not, ◌&&◌, ◌||◌, List, [], ◌∷◌, ◌++◌, Option, none, some, String, if◌then◌else◌, str_eq,
  filter_by, reverse,
}
use pican.Base.Assoc.{lookup, insert, delete}
use pican.Sessions.Json.{Json, Items, Fields, get, text_of, as_text}
use pican.Sessions.Fold.{is_text, as_object, texts_in}
use pican.Sessions.Fold.Typed.{SummaryMsg, PendingTool, SummaryFold}

-- A block of an assistant's message, and the first question in the arguments of one that asks.
pub record ToolBlock : Type 0 where
  pub kind : String
  pub id : String
  pub name : String
  pub arguments : Json

abbrev pub cons_block : Fields → Option (List ToolBlock) → Option (List ToolBlock)
cons_block b none = none
cons_block b (some rest) =
    if texts_in ("type" ∷ "id" ∷ "name" ∷ []) b
    then some (
        record {
          kind = text_of "type" b;
          id = text_of "id" b;
          name = text_of "name" b;
          arguments = get "arguments" b;
        }
        ∷ rest)
    else none

abbrev pub tool_blocks : Items → Option (List ToolBlock)
tool_blocks Items.end = some []
tool_blocks (Items.item (Json.object b) js) = cons_block b (tool_blocks js)
tool_blocks (Items.item Json.null js) = cons_block Fields.empty (tool_blocks js)
tool_blocks (Items.item (Json.text s) js) = none
tool_blocks (Items.item (Json.bool b) js) = none
tool_blocks (Items.item (Json.number n) js) = none
tool_blocks (Items.item (Json.array x) js) = none

abbrev pub cons_label : Json → Option (List String) → Option (List String)
cons_label label none = none
cons_label label (some rest) =
    if is_text label
    then some (if str_eq (as_text label) "" then rest else as_text label ∷ rest)
    else none

abbrev pub labels : Items → Option (List String)
labels Items.end = some []
labels (Items.item (Json.object o) js) = cons_label (get "label" o) (labels js)
labels (Items.item Json.null js) = labels js
labels (Items.item (Json.text s) js) = none
labels (Items.item (Json.bool b) js) = none
labels (Items.item (Json.number n) js) = none
labels (Items.item (Json.array x) js) = none

abbrev pub options_of : Json → Option (List String)
options_of (Json.array js) = labels js
options_of Json.null = some []
options_of (Json.text s) = none
options_of (Json.bool b) = none
options_of (Json.number n) = none
options_of (Json.object fs) = none

abbrev pub question_with : String → Option (List String) → Option (String × List String)
question_with q none = none
question_with q (some os) = some (q, os)

abbrev pub question_of : Json → Option (String × List String)
question_of (Json.object q) =
    if is_text (get "question" q)
    then question_with (text_of "question" q) (options_of (get "options" q))
    else none
question_of Json.null = some ("", [])
question_of (Json.text s) = none
question_of (Json.bool b) = none
question_of (Json.number n) = none
question_of (Json.array js) = none

-- The first question, if all of them decode.
abbrev pub first_of :
    Option (String × List String)
    → Option (List (String × List String))
    → Option (List (String × List String))
first_of none rest = none
first_of (some q) none = none
first_of (some q) (some qs) = some (q ∷ qs)

abbrev pub questions : Items → Option (List (String × List String))
questions Items.end = some []
questions (Items.item j js) = first_of (question_of j) (questions js)

abbrev pub questions_of : Json → Option (List (String × List String))
questions_of (Json.array js) = questions js
questions_of Json.null = some []
questions_of (Json.text s) = none
questions_of (Json.bool b) = none
questions_of (Json.number n) = none
questions_of (Json.object fs) = none

abbrev pub asked : Option (List (String × List String)) → PendingTool → PendingTool
asked none tool = tool
asked (some []) tool = tool
asked (some ((q, os) ∷ qs)) tool = record tool { question = q; options = os }

abbrev pub asks : String → Bool
asks name =
    str_eq name "ask_user"
    || str_eq name "ask_user_question"
    || str_eq name "pican_ask_user_question"

abbrev pub tool_of : String → ToolBlock → PendingTool
tool_of timestamp b =
    let tool : PendingTool = record {
      name = b.name;
      started_at = timestamp;
      question = "";
      options = [];
    } in
    if asks b.name
    then asked (questions_of (get "questions" (as_object b.arguments))) tool
    else tool

abbrev pub is_call : ToolBlock → Bool
is_call b = str_eq b.kind "toolCall" && not (str_eq b.id "") && not (str_eq b.name "")

unfoldable pub start_tools : String → List ToolBlock → SummaryFold → SummaryFold
start_tools timestamp [] fs = fs
start_tools timestamp (b ∷ bs) fs = start_tools timestamp bs (
    if is_call b
    then record fs {
      pending_tools = insert b.id (tool_of timestamp b) fs.pending_tools;
      pending_tool_order = fs.pending_tool_order ++ b.id ∷ [];
    }
    else fs)

abbrev pub start_decoded : String → Option (List ToolBlock) → SummaryFold → SummaryFold
start_decoded timestamp none fs = fs
start_decoded timestamp (some bs) fs = start_tools timestamp bs fs

abbrev pub start_in : String → Json → SummaryFold → SummaryFold
start_in timestamp (Json.array js) fs = start_decoded timestamp (tool_blocks js) fs
start_in timestamp Json.null fs = fs
start_in timestamp (Json.text s) fs = fs
start_in timestamp (Json.bool b) fs = fs
start_in timestamp (Json.number n) fs = fs
start_in timestamp (Json.object o) fs = fs

unfoldable pub fold_tool_activity : String → SummaryMsg → SummaryFold → SummaryFold
unfolding start_tools
fold_tool_activity timestamp msg fs =
    if str_eq msg.role "toolResult" && not (str_eq msg.tool_call_id "")
    then if msg.awaiting_chat_reply
      then fs
      else record fs { pending_tools = delete msg.tool_call_id fs.pending_tools }
    else if str_eq msg.role "user"
    then record fs { pending_tools = filter_by (λ t. str_eq t.1.question "") fs.pending_tools }
    else if str_eq msg.role "assistant"
    then start_in timestamp msg.content fs
    else fs

abbrev pub or_next : Option PendingTool → Option PendingTool → Option PendingTool
or_next none rest = rest
or_next (some t) rest = some t

-- The tool that was started last and is pending still.
abbrev pub latest_in : List (String × PendingTool) → List String → Option PendingTool
latest_in tools [] = none
latest_in tools (id ∷ ids) = or_next (lookup id tools) (latest_in tools ids)

abbrev pub current_tool : SummaryFold → Option PendingTool
current_tool fs = latest_in fs.pending_tools (reverse fs.pending_tool_order)
