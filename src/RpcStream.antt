-- ===== src/RpcStream.antt =====
-- internal/rpc/stream.go: the accumulator that turns the text events of an agent's message into
-- previews. A text is its code points.
pub mod Message
mod Tests
use pican.Base.{
  ℕ, String, Bool, true, false, not, ◌&&◌, List, [], ◌∷◌, ◌++◌, Option, none, some, str_eq,
  if◌then◌else◌,
}

abbrev pub Text : Type 0
Text = List ℕ

-- The code here leaves `TurnID` and `ItemID` empty.
pub record StreamPreview : Type 0 where
  pub content : Text
  pub done : Bool

pub record AssistantMessageEvent : Type 0 where
  pub kind : String
  pub delta : Text
  pub content : Text

pub record Accumulator : Type 0 where
  pub content : Text
  pub active : Bool

abbrev pub is_empty : Text → Bool
is_empty [] = true
is_empty (c ∷ cs) = false

abbrev pub blank : Accumulator
blank = record { content = []; active = false }

abbrev preview_of : Text → Bool → StreamPreview
preview_of t d = record { content = t; done = d }

abbrev is_unused : Accumulator → Bool
is_unused a = is_empty a.content && not a.active

-- The end of a message, when the event's own content has replaced what was accumulated.
abbrev finished : Accumulator → Accumulator × Option StreamPreview
finished a =
    if is_unused a
    then (a, none)
    else (record { content = []; active = false }, some (preview_of a.content true))

-- `handleAssistantEvent`
unfoldable pub handle_assistant_event :
    Accumulator → AssistantMessageEvent → Accumulator × Option StreamPreview
handle_assistant_event a e =
    if str_eq e.kind "text_delta"
    then (
      record { content = a.content ++ e.delta; active = true },
      some (preview_of (a.content ++ e.delta) false),
    )
    else if str_eq e.kind "text_end"
    then finished (if is_empty e.content then a else record a { content = e.content })
    else (a, none)

unfoldable pub complete : Accumulator → Accumulator × Option StreamPreview
complete a =
    if is_unused a
    then (a, none)
    else (record { content = []; active = false }, some (preview_of a.content true))

abbrev pub handle_all : Accumulator → List AssistantMessageEvent → Accumulator
handle_all a [] = a
handle_all a (e ∷ es) = handle_all (handle_assistant_event a e).0 es
