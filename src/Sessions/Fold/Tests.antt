-- ===== src/Sessions/Fold/Tests.antt =====
-- internal/sessions/session.go: tests of the folds of a session file's lines.
use pican.Base.{some, true, ◌≡◌, refl, [], ◌∷◌}
use pican.Sessions.Json.{Json, Fields}
use pican.Sessions.Fold.Typed.{new_summary_fold, summary_line_of, extract_raw_text}
use pican.Sessions.Fold.Whole.{fold_line}
use pican.Sessions.Fold.Finalize.{Disk, apply_summary_context, finalize_summary}
use pican.Sessions.Fold.Lines
use pican.Sessions.Fold.Tools.{fold_tool_activity}
use pican.Sessions.Fold.Agreement.{fold_typed}

abbrev header_line : Fields
header_line =
    Fields.field "type" (Json.text "session")
      (Fields.field "id" (Json.text "s1") (Fields.field "timestamp" (Json.text "t1") Fields.empty))

abbrev user_message : Json
user_message =
    Json.object (
      Fields.field "role" (Json.text "user") (Fields.field "content" (Json.text "hi") Fields.empty))

abbrev message_line : Fields
message_line =
    Fields.field "type" (Json.text "message")
      (Fields.field "timestamp" (Json.text "t2") (Fields.field "message" user_message Fields.empty))

abbrev present : Disk
present = record { mod_time = some "t0"; is_there = λ p. true }

first_text_is_name :
    (finalize_summary present "p" "f"
      (fold_typed new_summary_fold (header_line ∷ message_line ∷ []))).0.name
    ≡ "hi"
unfolding summary_line_of Lines.fold_line fold_tool_activity extract_raw_text apply_summary_context
first_text_is_name = refl
