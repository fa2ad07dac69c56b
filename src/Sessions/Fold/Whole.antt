-- ===== src/Sessions/Fold/Whole.antt =====
-- internal/sessions/session.go: fileFoldState, the fold of lines as maps.
use Prim.Native.String.{◌++◌ as text_append}
use pican.Base.{ℕ, ◌+◌, Bool, true, not, ◌&&◌, List, [], ◌∷◌, ◌++◌, String, if◌then◌else◌, str_eq}
use pican.Base.Assoc.{lookup, insert}
use pican.Sessions.Branch.{session_header_key, is_seen}
use pican.Sessions.Json.{Json, Items, Fields, get, text_of}
use pican.Sessions.Fold.{Summary, Context, new_summary, new_context, or_text}

pub record FileFold : Type 0 where
  pub s : Summary
  pub context : Context
  pub header : Fields
  pub entries : List Fields
  pub seen_session_headers : List (String × Bool)

abbrev pub new_file_fold : FileFold
new_file_fold = record {
  s = new_summary;
  context = new_context;
  header = Fields.empty;
  entries = [];
  seen_session_headers = [];
}

-- The texts of the items that are blocks of type "text".
abbrev pub item_text : Fields → String → String
item_text b rest =
    if str_eq (text_of "type" b) "text" then text_append (text_of "text" b) rest else rest

abbrev pub item_texts : Items → String
item_texts Items.end = ""
item_texts (Items.item (Json.object b) js) = item_text b (item_texts js)
item_texts (Items.item Json.null js) = item_texts js
item_texts (Items.item (Json.text s) js) = item_texts js
item_texts (Items.item (Json.bool b) js) = item_texts js
item_texts (Items.item (Json.number n) js) = item_texts js
item_texts (Items.item (Json.array x) js) = item_texts js

unfoldable pub extract_message_text : Json → String
extract_message_text (Json.text s) = s
extract_message_text (Json.array js) = item_texts js
extract_message_text Json.null = ""
extract_message_text (Json.bool b) = ""
extract_message_text (Json.number n) = ""
extract_message_text (Json.object fs) = ""

-- `if ts, ok := raw["timestamp"].(string); ok`
abbrev pub set_time : Json → Summary → Summary
set_time (Json.text ts) s = record s { last_activity = ts }
set_time Json.null s = s
set_time (Json.bool b) s = s
set_time (Json.number n) s = s
set_time (Json.array js) s = s
set_time (Json.object fs) s = s

abbrev pub add_number : Json → ℕ → ℕ
add_number (Json.number t) n = n + t
add_number Json.null n = n
add_number (Json.text s) n = n
add_number (Json.bool b) n = n
add_number (Json.array js) n = n
add_number (Json.object fs) n = n

abbrev pub add_cost : Json → ℕ → ℕ
add_cost (Json.object cost) n = add_number (get "total" cost) n
add_cost Json.null n = n
add_cost (Json.text s) n = n
add_cost (Json.bool b) n = n
add_cost (Json.number t) n = n
add_cost (Json.array js) n = n

abbrev pub add_usage : Json → Summary → Summary
add_usage (Json.object usage) s = record s {
  token_total = add_number (get "totalTokens" usage) s.token_total;
  cost_total = add_cost (get "cost" usage) s.cost_total;
}
add_usage Json.null s = s
add_usage (Json.text x) s = s
add_usage (Json.bool b) s = s
add_usage (Json.number n) s = s
add_usage (Json.array js) s = s

abbrev pub fold_header : FileFold → Fields → FileFold
fold_header ff raw = record ff {
  header = raw;
  context = record ff.context {
    header_name = or_text (text_of "name" raw) ff.context.header_name;
    header_cwd = or_text (text_of "cwd" raw) ff.context.header_cwd;
  };
  s = record ff.s {
    session_uuid = or_text (text_of "id" raw) ff.s.session_uuid;
    runtime = or_text (text_of "runtime" raw) ff.s.runtime;
    native_id = text_of "nativeId" raw;
    model = or_text (text_of "model" raw) ff.s.model;
    model_provider =
        if str_eq (text_of "model" raw) ""
        then ff.s.model_provider
        else or_text (text_of "modelProvider" raw) (text_of "provider" raw);
  };
}

abbrev pub counted : Fields → Summary → Summary
counted m s = add_usage (get "usage" m) (record s {
  message_count = s.message_count + 1;
  model = or_text (text_of "model" m) s.model;
  model_provider = if str_eq (text_of "model" m) "" then s.model_provider else text_of "provider" m;
})

abbrev pub fold_message : FileFold → Json → FileFold
fold_message ff (Json.object m) = record ff {
  s = counted m ff.s;
  context = record ff.context {
    first_user_text =
        if str_eq ff.context.first_user_text "" && str_eq (text_of "role" m) "user"
        then extract_message_text (get "content" m)
        else ff.context.first_user_text;
  };
}
fold_message ff Json.null = ff
fold_message ff (Json.text s) = ff
fold_message ff (Json.bool b) = ff
fold_message ff (Json.number n) = ff
fold_message ff (Json.array js) = ff

abbrev pub at_time : Fields → FileFold → FileFold
at_time raw ff = record ff { s = set_time (get "timestamp" raw) ff.s }

abbrev pub change_model : Fields → FileFold → FileFold
change_model raw ff = record ff {
  s = record ff.s {
    model = or_text (text_of "modelId" raw) ff.s.model;
    model_provider =
        if str_eq (text_of "modelId" raw) "" then ff.s.model_provider else text_of "provider" raw;
  };
}

-- The line by its type, once it is among the entries.
abbrev pub fold_entry : FileFold → Fields → FileFold
fold_entry ff raw =
    if str_eq (text_of "type" raw) "session"
    then fold_header ff raw
    else if str_eq (text_of "type" raw) "session_info"
    then record ff {
      context = record ff.context {
        session_info_name = or_text (text_of "name" raw) ff.context.session_info_name;
      };
    }
    else if str_eq (text_of "type" raw) "message"
    then fold_message (at_time raw ff) (get "message" raw)
    else if str_eq (text_of "type" raw) "model_change"
    then change_model raw (at_time raw ff)
    else at_time raw ff

-- A session header that was there before.
abbrev pub is_repeated : FileFold → Fields → Bool
is_repeated ff raw =
    str_eq (text_of "type" raw) "session"
    && not (str_eq (session_header_key raw) "")
    && is_seen (lookup (session_header_key raw) ff.seen_session_headers)

abbrev pub see_header : FileFold → Fields → FileFold
see_header ff raw =
    let key = session_header_key raw in
    if str_eq (text_of "type" raw) "session"
    then if str_eq key ""
      then ff
      else record ff { seen_session_headers = insert key true ff.seen_session_headers }
    else ff

abbrev pub add_entry : FileFold → Fields → FileFold
add_entry ff raw = record ff { entries = ff.entries ++ raw ∷ [] }

unfoldable pub fold_line : FileFold → Fields → FileFold
unfolding extract_message_text session_header_key
fold_line ff raw =
    if is_repeated ff raw then ff else fold_entry (add_entry (see_header ff raw) raw) raw
