-- ===== src/Sessions/Fold/Agreement.antt =====
-- internal/sessions/session.go: the fold of typed lines and the fold of maps derive the same
-- fields.
use pican.Base.{
  ◌≡◌, ◌≢◌, refl, ◌∙◌, sym, ap, inl, inr, Bool, true, false, ◌&&◌, List, [], ◌∷◌, Option, none,
  some, if◌then◌else◌, str_eq, Bool-cases,
}
use pican.Sessions.Json.{Json, Fields, get, text_of}
use pican.Sessions.Fold.{is_text, is_bool, as_object, texts_in}
use pican.Sessions.Fold.Typed.{
  SummaryLine, SummaryFold, new_summary_fold, is_message, message_of, line_texts, is_typed,
  typed_line, summary_line_of,
}
use pican.Sessions.Fold.Lines.{fold_line}
use pican.Sessions.Fold.Whole.{
  FileFold, new_file_fold, set_time, is_repeated, see_header, add_entry, fold_entry,
}
use pican.Sessions.Fold.Whole.{fold_line as fold_map, at_time as map_at_time}
use pican.Sessions.Fold.Derived.{
  timed, with_message, with_model, next_summary, next_context, typed_next,
}
use pican.Sessions.Fold.Messages.{HasPlainText, both, set_time-timed, message_next}

-- A line that both folds read alike: it decodes as a typed line; it has no empty timestamp; the
-- content of its message, if that is a list, is one of blocks; and it is no session header that was
-- there before.
pub record IsPlain (ff : FileFold) (raw : Fields) : Type 0 where
  pub typed : is_typed raw ≡ true
  pub dated : get "timestamp" raw ≢ Json.text ""
  pub plain_text : HasPlainText (get "content" (as_object (get "message" raw)))
  pub unseen : is_repeated ff raw ≡ false

entry_next :
    (ff : FileFold) (raw : Fields)
    → is_typed raw ≡ true
    → get "timestamp" raw ≢ Json.text ""
    → HasPlainText (get "content" (as_object (get "message" raw)))
    → ((fold_entry ff raw).s ≡ next_summary ff.s (typed_line raw))
      × ((fold_entry ff raw).context ≡ next_context ff.context (typed_line raw))
unfolding is_typed
entry_next ff raw typed dated plain_text =
    elim (Bool-cases (str_eq (text_of "type" raw) "session")) [
      | inl a ↦ rw a (refl, refl)
      | inr a ↦ elim (Bool-cases (str_eq (text_of "type" raw) "session_info")) [
        | inl b ↦ rw (a, b) (refl, refl)
        | inr b ↦ elim (Bool-cases (str_eq (text_of "type" raw) "message")) [
          | inl c ↦
              let (s, context) =
                message_next (map_at_time raw ff) (get "message" raw) message plain_text in
              rw (a, b, c)
                (s ∙ ap (λ t. with_message t (message_of (get "message" raw))) time, context)
          | inr c ↦ elim (Bool-cases (str_eq (text_of "type" raw) "model_change")) [
            | inl d ↦ rw (a, b, c, d) (ap (λ t. with_model t (typed_line raw)) time, refl)
            | inr d ↦ rw (a, b, c, d) (time, refl)
          ]
        ]
      ]
    ]
  where
    parts : (texts_in line_texts raw ≡ true) × (is_message (get "message" raw) ≡ true)
    parts =
        let (rest, m) =
          both (texts_in line_texts raw && is_bool (get "autoTitle" raw))
            (is_message (get "message" raw)) typed in
        ((both (texts_in line_texts raw) (is_bool (get "autoTitle" raw)) rest).0, m)

    message : is_message (get "message" raw) ≡ true
    message = parts.1

    stamp : is_text (get "timestamp" raw) ≡ true
    stamp =
        let (kind, rest) = both (is_text (get "type" raw)) _ parts.0 in
        (both (is_text (get "timestamp" raw)) _ rest).0

    time : set_time (get "timestamp" raw) ff.s ≡ timed (text_of "timestamp" raw) ff.s
    time = set_time-timed (get "timestamp" raw) ff.s stamp dated

seen_same :
    (b c : Bool) (x ff : FileFold)
    → x.s ≡ ff.s
    → x.context ≡ ff.context
    → ((if b then if c then ff else x else ff).s ≡ ff.s)
      × ((if b then if c then ff else x else ff).context ≡ ff.context)
seen_same true true x ff h k = (refl, refl)
seen_same true false x ff h k = (h, k)
seen_same false c x ff h k = (refl, refl)

map_next :
    (ff : FileFold) (raw : Fields)
    → IsPlain ff raw
    → ((fold_map ff raw).s ≡ next_summary ff.s (typed_line raw))
      × ((fold_map ff raw).context ≡ next_context ff.context (typed_line raw))
unfolding fold_map
map_next ff raw p =
    let (s, context) =
      entry_next (add_entry (see_header ff raw) raw) raw p.typed p.dated p.plain_text in
    let (s', context') = seen_same _ _ _ ff refl refl in
    rw p.unseen (
      s ∙ ap (λ t. next_summary t (typed_line raw)) s',
      context ∙ ap (λ t. next_context t (typed_line raw)) context',
    )

-- The lines of a file, those that decode as JSON objects, folded by each parse.
abbrev pub fold_decoded : SummaryFold → Option SummaryLine → SummaryFold
fold_decoded fs none = fs
fold_decoded fs (some l) = fold_line fs l

abbrev pub fold_typed : SummaryFold → List Fields → SummaryFold
fold_typed fs [] = fs
fold_typed fs (raw ∷ raws) = fold_typed (fold_decoded fs (summary_line_of raw)) raws

abbrev pub fold_maps : FileFold → List Fields → FileFold
fold_maps ff [] = ff
fold_maps ff (raw ∷ raws) = fold_maps (fold_map ff raw) raws

abbrev pub ArePlain : FileFold → List Fields → Type 0
ArePlain ff [] = Unit
ArePlain ff (raw ∷ raws) = IsPlain ff raw × ArePlain (fold_map ff raw) raws

decoded_plain :
    (fs : SummaryFold) (raw : Fields)
    → is_typed raw ≡ true
    → fold_decoded fs (summary_line_of raw) ≡ fold_line fs (typed_line raw)
unfolding summary_line_of
decoded_plain fs raw h = rw h refl

folds_from :
    (fs : SummaryFold) (ff : FileFold) (raws : List Fields)
    → ArePlain ff raws
    → fs.s ≡ ff.s
    → fs.context ≡ ff.context
    → ((fold_typed fs raws).s ≡ (fold_maps ff raws).s)
      × ((fold_typed fs raws).context ≡ (fold_maps ff raws).context)
folds_from fs ff [] h a b = (a, b)
folds_from fs ff (raw ∷ raws) (p, h) a b =
    let (s, context) = typed_next fs (typed_line raw) in
    let (s', context') = map_next ff raw p in
    let line = decoded_plain fs raw p.typed in
    folds_from (fold_decoded fs (summary_line_of raw)) (fold_map ff raw) raws h
      (ap (λ (x : SummaryFold). x.s) line
        ∙ s
        ∙ ap (λ t. next_summary t (typed_line raw)) a
        ∙ sym s')
      (ap (λ (x : SummaryFold). x.context) line
        ∙ context
        ∙ ap (λ t. next_context t (typed_line raw)) b
        ∙ sym context')

-- The parse for the summary and the parse of the whole session derive the same identity, runtime,
-- model, activity, counts, names, first text and working directory from a file's lines, if each
-- line decodes as a typed line, has no empty timestamp, has blocks alone in the list of its
-- message's content, and is no repeated session header.
pub folds_agree :
    (raws : List Fields)
    → ArePlain new_file_fold raws
    → ((fold_typed new_summary_fold raws).s ≡ (fold_maps new_file_fold raws).s)
      × ((fold_typed new_summary_fold raws).context ≡ (fold_maps new_file_fold raws).context)
folds_agree raws h = folds_from new_summary_fold new_file_fold raws h refl refl
