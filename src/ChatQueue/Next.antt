-- ===== src/ChatQueue/Next.antt =====
-- The next position of a session in chat_queue_state, through each statement that writes the table.
use pican.Base.{
  ℕ, ◌+◌, ◌≤◌, ◌≡◌, refl, ◌∙◌, ◌≢◌, String, List, [], ◌∷◌, ◌++◌, Option, none, some, arith,
  str_eq_self, eq_iff, Bool-cases, inl, inr, Option-cases,
}
use pican.ChatQueue.Table.{
  StateRow, new_state, find_state, has_state, ensure_state_row, bump_next, upsert_paused,
}
use pican.ChatQueue.Rows.{
  find_state-append, find_state-append_some, has_state-false, has_state-true, find-update_state,
  find-update_state_ne,
}

abbrev next_in : Option StateRow → ℕ
next_in none = 0
next_in (some st) = st.next_position

-- 0 for a session that has no row yet.
abbrev pub next_of : String → List StateRow → ℕ
next_of s states = next_in (find_state s states)

module _ (s : String) (now : ℕ) where
  pub next_of-ensure :
      (sts : List StateRow) → next_of s sts ≤ next_of s (ensure_state_row s now sts)
  next_of-ensure sts = elim (Bool-cases (has_state s sts)) [
    | inl h ↦ rw h (omega arith)
    | inr h ↦ rw (has_state-false s sts h) (omega arith)
  ]

  -- After the first statement of `Add` the session has a row.
  pub ensure-found :
      (sts : List StateRow)
      → (st : StateRow) × (find_state s (ensure_state_row s now sts) ≡ some st)
  ensure-found sts = elim (Bool-cases (has_state s sts)) [
    | inl h ↦ let (st, found) = has_state-true s sts h in (st, rw h found)
    | inr h ↦ (
      new_state s 0 now,
      rw h (
          find_state-append s sts (new_state s 0 now) (has_state-false s sts h)
          ∙ (rw (str_eq_self s) refl)),
    )
  ]

  pub next_of-bump :
      (sts : List StateRow) (st : StateRow)
      → find_state s sts ≡ some st
      → next_of s (bump_next s now sts) ≡ st.next_position + 1
  next_of-bump sts st found =
      rw
        (
          find-update_state
              (λ st. record st { next_position = st.next_position + 1; updated_at = now })
              (λ st. refl) s sts,
          found,
        )
        refl

  pub next_of-upsert_paused :
      (val : ℕ) (sts : List StateRow) → next_of s sts ≤ next_of s (upsert_paused s val now sts)
  next_of-upsert_paused val sts = elim (Bool-cases (has_state s sts)) [
    | inl h ↦
        let (st, found) = has_state-true s sts h in
        rw
          (
            h,
            find-update_state (λ st. record st { paused = val; updated_at = now }) (λ st. refl) s
                sts,
            found,
          )
          (omega arith)
    | inr h ↦ rw (has_state-false s sts h) (omega arith)
  ]

module _ (s t : String) (now : ℕ) (other : s ≢ t) where
  find-append_ne :
      (sts : List StateRow) (st : StateRow)
      → st.session_id ≡ s
      → find_state t (sts ++ st ∷ []) ≡ find_state t sts
  find-append_ne sts st e = elim (Option-cases (find_state t sts)) [
    | inl h ↦ rw h (find_state-append t sts st h ∙ ground (arith, eq_iff st.session_id t))
    | inr (x, h) ↦ rw h (find_state-append_some t sts _ x h)
  ]

  pub find-ensure_ne :
      (sts : List StateRow) → find_state t (ensure_state_row s now sts) ≡ find_state t sts
  find-ensure_ne sts = elim (Bool-cases (has_state s sts)) [
    | inl h ↦ rw h refl
    | inr h ↦ rw h (find-append_ne sts _ refl)
  ]

  pub find-bump_ne : (sts : List StateRow) → find_state t (bump_next s now sts) ≡ find_state t sts
  find-bump_ne sts = find-update_state_ne _ (λ st. refl) s t sts other

  pub find-upsert_paused_ne :
      (val : ℕ) (sts : List StateRow)
      → find_state t (upsert_paused s val now sts) ≡ find_state t sts
  find-upsert_paused_ne val sts = elim (Bool-cases (has_state s sts)) [
    | inl h ↦ rw h (find-update_state_ne _ (λ st. refl) s t sts other)
    | inr h ↦ rw h (find-append_ne sts _ refl)
  ]
