-- ===== src/Sessions/Fold/Lines.antt =====
-- internal/sessions/session.go: foldLine of the summary.
use pican.Base.{◌+◌, ◌&&◌, Option, none, some, String, if◌then◌else◌, str_eq}
use pican.Sessions.Fold.{Context, or_text}
use pican.Sessions.Fold.Typed.{SummaryMsg, SummaryLine, SummaryFold, extract_raw_text}
use pican.Sessions.Fold.Tools.{fold_tool_activity}

-- The header line.
abbrev pub fold_header : SummaryFold → SummaryLine → SummaryFold
fold_header fs raw = record fs {
  context = record fs.context {
    header_name = or_text raw.name fs.context.header_name;
    header_cwd = or_text raw.cwd fs.context.header_cwd;
  };
  s = record fs.s {
    session_uuid = or_text raw.id fs.s.session_uuid;
    runtime = or_text raw.runtime fs.s.runtime;
    native_id = raw.native_id;
    model = or_text raw.model fs.s.model;
    model_provider =
        if str_eq raw.model ""
        then fs.s.model_provider
        else or_text raw.model_provider raw.provider;
  };
}

abbrev pub at_time : String → SummaryFold → SummaryFold
at_time timestamp fs = record fs {
  s = record fs.s { last_activity = or_text timestamp fs.s.last_activity };
}

abbrev pub first_text : Context → SummaryMsg → String
first_text c msg =
    if str_eq c.first_user_text "" && str_eq msg.role "user"
    then extract_raw_text msg.content
    else c.first_user_text

abbrev pub count_message : SummaryMsg → SummaryFold → SummaryFold
count_message msg fs = record fs {
  s = record fs.s {
    message_count = fs.s.message_count + 1;
    token_total = fs.s.token_total + msg.total_tokens;
    cost_total = fs.s.cost_total + msg.cost;
    model = or_text msg.model fs.s.model;
    model_provider = if str_eq msg.model "" then fs.s.model_provider else msg.provider;
  };
  context = record fs.context { first_user_text = first_text fs.context msg };
}

abbrev pub fold_message : String → Option SummaryMsg → SummaryFold → SummaryFold
fold_message timestamp none fs = fs
fold_message timestamp (some msg) fs = fold_tool_activity timestamp msg (count_message msg fs)

abbrev pub change_model : SummaryLine → SummaryFold → SummaryFold
change_model raw fs = record fs {
  s = record fs.s {
    model = or_text raw.model_id fs.s.model;
    model_provider = if str_eq raw.model_id "" then fs.s.model_provider else raw.provider;
  };
}

unfoldable pub fold_line : SummaryFold → SummaryLine → SummaryFold
unfolding fold_tool_activity extract_raw_text
fold_line fs raw =
    if str_eq raw.kind "session"
    then fold_header fs raw
    else if str_eq raw.kind "session_info"
    then record fs {
      context = record fs.context {
        session_info_name = or_text raw.name fs.context.session_info_name;
      };
    }
    else if str_eq raw.kind "message"
    then fold_message raw.timestamp raw.message (at_time raw.timestamp fs)
    else if str_eq raw.kind "model_change"
    then change_model raw (at_time raw.timestamp fs)
    else at_time raw.timestamp fs
