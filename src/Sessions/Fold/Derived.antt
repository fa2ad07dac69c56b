-- ===== src/Sessions/Fold/Derived.antt =====
-- internal/sessions/session.go: the fold of typed lines in terms of what it derives.
use pican.Base.{
  ◌+◌, ◌≡◌, refl, ◌∙◌, inl, inr, Bool, true, false, List, [], ◌∷◌, Option, none, some, String,
  if◌then◌else◌, str_eq, Bool-cases,
}
use pican.Sessions.Json.{Json}
use pican.Sessions.Fold.{Summary, Context, or_text}
use pican.Sessions.Fold.Typed.{SummaryMsg, SummaryLine, SummaryFold}
use pican.Sessions.Fold.Tools.{
  ToolBlock, tool_blocks, start_tools, start_decoded, start_in, is_call, fold_tool_activity,
}
use pican.Sessions.Fold.Lines.{first_text, fold_message, at_time, fold_line}

-- What a line makes of the public fields and of the context.
abbrev pub with_header : Summary → SummaryLine → Summary
with_header s l = record s {
  session_uuid = or_text l.id s.session_uuid;
  runtime = or_text l.runtime s.runtime;
  native_id = l.native_id;
  model = or_text l.model s.model;
  model_provider =
      if str_eq l.model "" then s.model_provider else or_text l.model_provider l.provider;
}

abbrev pub timed : String → Summary → Summary
timed t s = record s { last_activity = or_text t s.last_activity }

abbrev pub with_message : Summary → Option SummaryMsg → Summary
with_message s none = s
with_message s (some m) = record s {
  message_count = s.message_count + 1;
  token_total = s.token_total + m.total_tokens;
  cost_total = s.cost_total + m.cost;
  model = or_text m.model s.model;
  model_provider = if str_eq m.model "" then s.model_provider else m.provider;
}

abbrev pub with_model : Summary → SummaryLine → Summary
with_model s l = record s {
  model = or_text l.model_id s.model;
  model_provider = if str_eq l.model_id "" then s.model_provider else l.provider;
}

abbrev pub next_summary : Summary → SummaryLine → Summary
next_summary s l =
    if str_eq l.kind "session"
    then with_header s l
    else if str_eq l.kind "session_info"
    then s
    else if str_eq l.kind "message"
    then with_message (timed l.timestamp s) l.message
    else if str_eq l.kind "model_change"
    then with_model (timed l.timestamp s) l
    else timed l.timestamp s

abbrev pub with_first : Context → Option SummaryMsg → Context
with_first c none = c
with_first c (some m) = record c { first_user_text = first_text c m }

abbrev pub next_context : Context → SummaryLine → Context
next_context c l =
    if str_eq l.kind "session"
    then record c {
      header_name = or_text l.name c.header_name;
      header_cwd = or_text l.cwd c.header_cwd;
    }
    else if str_eq l.kind "session_info"
    then record c { session_info_name = or_text l.name c.session_info_name }
    else if str_eq l.kind "message"
    then with_first c l.message
    else c

-- Tool calls leave both alone.
abbrev Keeps : SummaryFold → SummaryFold → Type 0
Keeps gs fs = (gs.s ≡ fs.s) × (gs.context ≡ fs.context)

if-Keeps :
    (b : Bool) (x y fs : SummaryFold) → Keeps x fs → Keeps y fs → Keeps (if b then x else y) fs
if-Keeps true x y fs h k = h
if-Keeps false x y fs h k = k

start_tools-Keeps :
    (t : String) (bs : List ToolBlock) (fs : SummaryFold) → Keeps (start_tools t bs fs) fs
unfolding start_tools
start_tools-Keeps t [] fs = (refl, refl)
start_tools-Keeps t (b ∷ bs) fs =
    let (a, c) = start_tools-Keeps t bs (if is_call b then _ else fs) in
    let (a', c') = if-Keeps (is_call b) _ fs fs (refl, refl) (refl, refl) in (a ∙ a', c ∙ c')

start_in-Keeps : (t : String) (content : Json) (fs : SummaryFold) → Keeps (start_in t content fs) fs
start_in-Keeps t (Json.array js) fs = by_blocks (tool_blocks js)
  where
    by_blocks : (bs : Option (List ToolBlock)) → Keeps (start_decoded t bs fs) fs
    by_blocks none = (refl, refl)
    by_blocks (some bs) = start_tools-Keeps t bs fs
start_in-Keeps t Json.null fs = (refl, refl)
start_in-Keeps t (Json.text s) fs = (refl, refl)
start_in-Keeps t (Json.bool b) fs = (refl, refl)
start_in-Keeps t (Json.number n) fs = (refl, refl)
start_in-Keeps t (Json.object o) fs = (refl, refl)

tools-Keeps :
    (t : String) (m : SummaryMsg) (fs : SummaryFold) → Keeps (fold_tool_activity t m fs) fs
unfolding fold_tool_activity
tools-Keeps t m fs =
    if-Keeps _ _ _ fs (if-Keeps m.awaiting_chat_reply fs _ fs (refl, refl) (refl, refl)) (
      if-Keeps _ _ _ fs (refl, refl)
        (if-Keeps _ _ fs fs (start_in-Keeps t m.content fs) (refl, refl)))

pub typed_next :
    (fs : SummaryFold) (l : SummaryLine)
    → ((fold_line fs l).s ≡ next_summary fs.s l)
      × ((fold_line fs l).context ≡ next_context fs.context l)
unfolding fold_line
typed_next fs l = elim (Bool-cases (str_eq l.kind "session")) [
  | inl a ↦ rw a (refl, refl)
  | inr a ↦ elim (Bool-cases (str_eq l.kind "session_info")) [
    | inl b ↦ rw (a, b) (refl, refl)
    | inr b ↦ elim (Bool-cases (str_eq l.kind "message")) [
      | inl c ↦ rw (a, b, c) (by_message l.message)
      | inr c ↦ elim (Bool-cases (str_eq l.kind "model_change")) [
        | inl d ↦ rw (a, b, c, d) (refl, refl)
        | inr d ↦ rw (a, b, c, d) (refl, refl)
      ]
    ]
  ]
]
  where
    by_message :
        (m : Option SummaryMsg)
        → ((fold_message l.timestamp m (at_time l.timestamp fs)).s
            ≡ with_message (timed l.timestamp fs.s) m)
          × ((fold_message l.timestamp m (at_time l.timestamp fs)).context
              ≡ with_first fs.context m)
    by_message none = (refl, refl)
    by_message (some m) = tools-Keeps l.timestamp m _
