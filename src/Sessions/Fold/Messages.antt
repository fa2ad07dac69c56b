-- ===== src/Sessions/Fold/Messages.antt =====
-- internal/sessions/session.go: what both folds derive from a time and from a message.
use pican.Base.{
  ℕ, ◌+◌, ◌≡◌, ◌≢◌, refl, ◌∙◌, sym, ap, inl, inr, Bool, true, false, ◌&&◌, [], ◌∷◌, Option, none,
  some, String, if◌then◌else◌, str_eq, arith, Bool-cases, str_eq_ne,
}
use pican.Sessions.Json.{Json, Items, Fields, get, text_of, as_text}
use pican.Sessions.Fold.{Summary, is_text, is_number, as_number, as_object, texts_in}
use pican.Sessions.Fold.Typed.{
  is_details, is_cost, is_usage, is_message, message_of, block_texts, add_block, or_empty,
  extract_raw_text,
}
use pican.Sessions.Fold.Whole.{
  FileFold, item_texts, item_text, extract_message_text, set_time, add_number, add_cost, add_usage,
}
use pican.Sessions.Fold.Whole.{fold_message as fold_map_message}
use pican.Sessions.Fold.Derived.{timed, with_message, with_first}

pub both : (a b : Bool) → (a && b) ≡ true → (a ≡ true) × (b ≡ true)
both true b h = (refl, h)
both false b h = cc

pub set_time-timed :
    (j : Json) (s : Summary)
    → is_text j ≡ true
    → j ≢ Json.text ""
    → set_time j s ≡ timed (as_text j) s
set_time-timed (Json.text t) s h k = rw (str_eq_ne t "" (λ e. k (ap Json.text e))) refl
set_time-timed Json.null s h k = refl
set_time-timed (Json.bool b) s h k = cc
set_time-timed (Json.number n) s h k = cc
set_time-timed (Json.array js) s h k = cc
set_time-timed (Json.object fs) s h k = cc

-- Each block of a message's content decodes: a list of blocks, with texts as their types and texts.
abbrev pub HasPlainText : Json → Type 0
HasPlainText (Json.array js) = (t : String) × (block_texts js ≡ some t)
HasPlainText (Json.text s) = Unit
HasPlainText Json.null = Unit
HasPlainText (Json.bool b) = Unit
HasPlainText (Json.number n) = Unit
HasPlainText (Json.object fs) = Unit

added :
    (b : Fields) (rest : Option String) (t : String)
    → add_block b rest ≡ some t
    → (r : String) × (rest ≡ some r) × (item_text b r ≡ t)
added b none t h = cc
added b (some r) t h = elim (Bool-cases (is_text (get "type" b) && is_text (get "text" b))) [
  | inl e ↦ (r, refl, ground arith)
  | inr e ↦ absurd (ground arith)
]

block_texts-item_texts : (js : Items) (t : String) → block_texts js ≡ some t → item_texts js ≡ t
block_texts-item_texts Items.end t h = cc
block_texts-item_texts (Items.item (Json.object b) js) t h =
    let (r, e, is) = added b (block_texts js) t h in
    ap (item_text b) (block_texts-item_texts js r e) ∙ is
block_texts-item_texts (Items.item Json.null js) t h = block_texts-item_texts js t h
block_texts-item_texts (Items.item (Json.text s) js) t h = cc
block_texts-item_texts (Items.item (Json.bool b) js) t h = cc
block_texts-item_texts (Items.item (Json.number n) js) t h = cc
block_texts-item_texts (Items.item (Json.array x) js) t h = cc

same_text : (j : Json) → HasPlainText j → extract_message_text j ≡ extract_raw_text j
unfolding extract_message_text extract_raw_text
same_text (Json.array js) (t, e) = block_texts-item_texts js t e ∙ sym (ap or_empty e)
same_text (Json.text s) h = refl
same_text Json.null h = refl
same_text (Json.bool b) h = refl
same_text (Json.number n) h = refl
same_text (Json.object fs) h = refl

add_number_lem : (j : Json) (n : ℕ) → is_number j ≡ true → add_number j n ≡ n + as_number j
add_number_lem (Json.number t) n h = refl
add_number_lem Json.null n h = omega arith
add_number_lem (Json.text s) n h = cc
add_number_lem (Json.bool b) n h = cc
add_number_lem (Json.array js) n h = cc
add_number_lem (Json.object fs) n h = cc

add_cost_lem :
    (j : Json) (n : ℕ) → is_cost j ≡ true → add_cost j n ≡ n + as_number (get "total" (as_object j))
add_cost_lem (Json.object c) n h = add_number_lem (get "total" c) n h
add_cost_lem Json.null n h = omega arith
add_cost_lem (Json.text s) n h = cc
add_cost_lem (Json.bool b) n h = cc
add_cost_lem (Json.number t) n h = cc
add_cost_lem (Json.array js) n h = cc

add_usage_lem :
    (j : Json) (s : Summary)
    → is_usage j ≡ true
    → add_usage j s ≡ record s {
      token_total = s.token_total + as_number (get "totalTokens" (as_object j));
      cost_total = s.cost_total + as_number (get "total" (as_object (get "cost" (as_object j))));
    }
add_usage_lem (Json.object u) s h =
    let (tokens, cost) = both (is_number (get "totalTokens" u)) (is_cost (get "cost" u)) h in
    cc (
      add_number_lem (get "totalTokens" u) s.token_total tokens,
      add_cost_lem (get "cost" u) s.cost_total cost,
    )
add_usage_lem Json.null s h =
    cc (add_number_lem Json.null s.token_total refl, add_cost_lem Json.null s.cost_total refl)
add_usage_lem (Json.text x) s h = cc
add_usage_lem (Json.bool b) s h = cc
add_usage_lem (Json.number n) s h = cc
add_usage_lem (Json.array js) s h = cc

pub message_next :
    (ff : FileFold) (j : Json)
    → is_message j ≡ true
    → HasPlainText (get "content" (as_object j))
    → ((fold_map_message ff j).s ≡ with_message ff.s (message_of j))
      × ((fold_map_message ff j).context ≡ with_first ff.context (message_of j))
message_next ff (Json.object m) h k =
    let (rest, usage) =
      both
        (texts_in ("role" ∷ "provider" ∷ "model" ∷ "toolCallId" ∷ []) m
          && is_details (get "details" m))
        (is_usage (get "usage" m)) h in
    (
      add_usage_lem (get "usage" m) _ usage,
      ap
          (λ t. record ff.context {
            first_user_text =
                if str_eq ff.context.first_user_text "" && str_eq (text_of "role" m) "user"
                then t
                else ff.context.first_user_text;
          })
          (same_text (get "content" m) k),
    )
message_next ff Json.null h k = (refl, refl)
message_next ff (Json.text s) h k = cc
message_next ff (Json.bool b) h k = cc
message_next ff (Json.number n) h k = cc
message_next ff (Json.array js) h k = cc
