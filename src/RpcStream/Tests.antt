-- ===== src/RpcStream/Tests.antt =====
-- A streamed message, and the accumulator's theorem at it.
use pican.Base.{◌≡◌, refl, true, List, [], ◌∷◌, map, some}
use pican.Base.Text.{codes}
use pican.RpcStream.{Text, blank, handle_assistant_event, complete, handle_all}
use pican.RpcStream.Message.{text_delta, text_end, final_preview, message_ends}

abbrev deltas : List Text
deltas = codes "he" ∷ codes "llo" ∷ []

whole : final_preview deltas [] ≡ some (record { content = codes "hello"; done = true })
whole = refl

message_ends_example :
    let a = handle_all blank (map text_delta deltas) in
    (handle_assistant_event a (text_end []) ≡ (blank, final_preview deltas []))
    × (complete a ≡ (blank, final_preview deltas []))
message_ends_example = message_ends deltas []
