-- ===== src/RpcStream/Message.antt =====
-- What internal/rpc/stream.go makes of the events of one message.
use pican.Base.{
  ◌≡◌, refl, ◌∙◌, Bool, true, false, not, ◌||◌, List, [], ◌∷◌, ◌++◌, map, Option, none, some, arith,
  if◌then◌else◌, append_assoc, append-nil,
}
use pican.RpcStream.{
  Text, StreamPreview, AssistantMessageEvent, Accumulator, is_empty, blank, preview_of,
  handle_assistant_event, complete, handle_all,
}

abbrev pub text_delta : Text → AssistantMessageEvent
text_delta t = record { kind = "text_delta"; delta = t; content = [] }

abbrev pub text_end : Text → AssistantMessageEvent
text_end t = record { kind = "text_end"; delta = []; content = t }

abbrev pub joined : List Text → Text
joined [] = []
joined (t ∷ ts) = t ++ joined ts

abbrev pub has_deltas : List Text → Bool
has_deltas [] = false
has_deltas (t ∷ ts) = true

handle_all-deltas :
    (a : Accumulator) (ts : List Text)
    → handle_all a (map text_delta ts) ≡ record {
      content = a.content ++ joined ts;
      active = if has_deltas ts then true else a.active;
    }
unfolding handle_assistant_event
handle_all-deltas a [] = rw (append-nil a.content) refl
handle_all-deltas a (t ∷ ts) =
    let stays : (if has_deltas ts then true else true) ≡ true = ground arith in
    handle_all-deltas (record { content = a.content ++ t; active = true }) ts
    ∙ rw (append_assoc a.content t (joined ts), stays) refl

-- What a message with these deltas ends with, `own` being the content of its end, if any.
abbrev pub final_preview : List Text → Text → Option StreamPreview
final_preview ts own =
    if has_deltas ts || not (is_empty own)
    then some (preview_of (if is_empty own then joined ts else own) true)
    else none

closing :
    (ts : List Text) (own : Text)
    → let a : Accumulator = record {
      content = joined ts;
      active = if has_deltas ts then true else false;
    } in
      (handle_assistant_event a (text_end own) ≡ (blank, final_preview ts own))
      × (complete a ≡ (blank, final_preview ts []))
unfolding handle_assistant_event complete
closing [] [] = (refl, refl)
closing [] (c ∷ cs) = (refl, refl)
closing (t ∷ ts) [] = (ground arith, ground arith)
closing (t ∷ ts) (c ∷ cs) = (refl, ground arith)

-- A message that is streamed as deltas ends with one final preview: all of the deltas joined, or
-- the content that its end states. It is the same whether the end of the text or, with no end, the
-- completion of the turn closes it, there is none for a message without any text event, and the
-- accumulator is as at the start.
pub message_ends :
    (ts : List Text) (own : Text)
    → let a = handle_all blank (map text_delta ts) in
      (handle_assistant_event a (text_end own) ≡ (blank, final_preview ts own))
      × (complete a ≡ (blank, final_preview ts []))
unfolding handle_assistant_event complete
message_ends ts own = rw (handle_all-deltas blank ts) (closing ts own)
