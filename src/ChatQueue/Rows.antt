-- ===== src/ChatQueue/Rows.antt =====
-- Lemmas on the tables of internal/chatqueue/chatqueue.go: selections, deletions, state rows.
use mathlib.Core.Option
use mathlib.Core.Logic.{◌≢◌}
use pican.Base.{
  ℕ, suc, ◌≤◌, ◌<◌, ◌≡◌, refl, String, Bool, true, false, not, List, [], ◌∷◌, ◌++◌, none, some,
  arith, ◌==◌, str_eq, eq_iff, if◌then◌else◌, filter_by, any_by, Bool-cases, inl, inr,
}
use pican.ChatQueue.Table.{
  Item, StateRow, of_session, is_row, delete_row, delete_session, order_by_position, find_state,
  update_state, has_state, delete_state,
}

-- The positions ascend along the list, from `lo` on, and stay under `hi`.
abbrev pub Within : ℕ → ℕ → List Item → Type 0
Within lo hi [] = lo ≤ hi
Within lo hi (r ∷ rs) = (lo ≤ r.position) × Within (suc r.position) hi rs

pub Within-wider :
    (lo lo' hi hi' : ℕ) (rs : List Item) → lo' ≤ lo → hi ≤ hi' → Within lo hi rs → Within lo' hi' rs
Within-wider lo lo' hi hi' [] a b w = omega arith
Within-wider lo lo' hi hi' (r ∷ rs) a b w =
    (omega arith, Within-wider (suc r.position) (suc r.position) hi hi' rs (omega arith) b w.1)

pub filter-Within :
    (p : Item → Bool) (lo hi : ℕ) (rs : List Item) → Within lo hi rs → Within lo hi (filter_by p rs)
filter-Within p lo hi [] w = w
filter-Within p lo hi (r ∷ rs) w =
    let rest = filter-Within p (suc r.position) hi rs w.1 in
    elim (Bool-cases (p r)) [
      | inl e ↦ rw e (w.0, rest)
      | inr e ↦
          rw e (
            Within-wider (suc r.position) lo hi hi (filter_by p rs) (omega arith) (omega arith)
              rest)
    ]

pub append-Within :
    (lo : ℕ) (rs : List Item) (r : Item)
    → Within lo r.position rs
    → Within lo (suc r.position) (rs ++ r ∷ [])
append-Within lo [] r w = (w, omega arith)
append-Within lo (x ∷ rs) r w = (w.0, append-Within (suc x.position) rs r w.1)

pub Within-le : (lo hi : ℕ) (rs : List Item) → Within lo hi rs → lo ≤ hi
Within-le lo hi [] w = w
Within-le lo hi (r ∷ rs) w = omega (arith, Within-le (suc r.position) hi rs w.1)

-- Rows in ascending order are in the order of the query.
pub order_by_position_lem :
    (lo hi : ℕ) (rs : List Item) → Within lo hi rs → order_by_position rs ≡ rs
order_by_position_lem lo hi [] w = refl
order_by_position_lem lo hi (r ∷ []) w = refl
order_by_position_lem lo hi (r ∷ x ∷ rs) w =
    rw (order_by_position_lem (suc r.position) hi (x ∷ rs) w.1) (ground arith)

-- A position outside the range is the position of no row.
pub any-outside :
    (lo hi p : ℕ) (rs : List Item)
    → Within lo hi rs
    → hi ≤ p
    → any_by (λ r. r.position == p) rs ≡ false
any-outside lo hi p [] w h = refl
any-outside lo hi p (r ∷ rs) w h =
    ground (arith, any-outside (suc r.position) hi p rs w.1 h, Within-le (suc r.position) hi rs w.1)

pub any-below :
    (lo hi p : ℕ) (rs : List Item)
    → Within lo hi rs
    → p < lo
    → any_by (λ r. r.position == p) rs ≡ false
any-below lo hi p [] w h = refl
any-below lo hi p (r ∷ rs) w h =
    ground (arith, any-below (suc r.position) hi p rs w.1 (omega arith))

abbrev pub drop_position : ℕ → List Item → List Item
drop_position p = filter_by (λ r. not (r.position == p))

pub drop-below : (lo hi p : ℕ) (rs : List Item) → Within lo hi rs → p < lo → drop_position p rs ≡ rs
drop-below lo hi p [] w h = refl
drop-below lo hi p (r ∷ rs) w h =
    ground (arith, drop-below (suc r.position) hi p rs w.1 (omega arith))

pub of_session-append :
    (s : String) (xs ys : List Item) → of_session s (xs ++ ys) ≡ of_session s xs ++ of_session s ys
of_session-append s [] ys = refl
of_session-append s (x ∷ xs) ys = ground (arith, of_session-append s xs ys)

-- A deletion of one row, seen by its own session and by another.
pub of_session-delete_row :
    (s : String) (p : ℕ) (xs : List Item)
    → of_session s (delete_row s p xs) ≡ drop_position p (of_session s xs)
of_session-delete_row s p [] = refl
of_session-delete_row s p (x ∷ xs) = ground (arith, of_session-delete_row s p xs)

pub of_session-delete_row_ne :
    (s t : String) (p : ℕ) (xs : List Item)
    → s ≢ t
    → of_session t (delete_row s p xs) ≡ of_session t xs
of_session-delete_row_ne s t p [] h = refl
of_session-delete_row_ne s t p (x ∷ xs) h =
    ground
      (arith, of_session-delete_row_ne s t p xs h, eq_iff x.session_id s, eq_iff x.session_id t)

pub of_session-delete_session :
    (s : String) (xs : List Item) → of_session s (delete_session s xs) ≡ []
of_session-delete_session s [] = refl
of_session-delete_session s (x ∷ xs) = ground (arith, of_session-delete_session s xs)

pub of_session-delete_session_ne :
    (s t : String) (xs : List Item) → s ≢ t → of_session t (delete_session s xs) ≡ of_session t xs
of_session-delete_session_ne s t [] h = refl
of_session-delete_session_ne s t (x ∷ xs) h =
    ground
      (arith, of_session-delete_session_ne s t xs h, eq_iff x.session_id s, eq_iff x.session_id t)

pub any-is_row :
    (s : String) (p : ℕ) (xs : List Item)
    → any_by (is_row s p) xs ≡ any_by (λ r. r.position == p) (of_session s xs)
any-is_row s p [] = refl
any-is_row s p (x ∷ xs) = ground (arith, any-is_row s p xs)

-- The state row of a session.
pub find_state-append :
    (s : String) (sts : List StateRow) (st : StateRow)
    → find_state s sts ≡ none
    → find_state s (sts ++ st ∷ []) ≡ (if str_eq st.session_id s then some st else none)
find_state-append s [] st e = refl
find_state-append s (x ∷ sts) st e = ground (arith, find_state-append s sts st)

pub find_state-append_some :
    (s : String) (sts ys : List StateRow) (st : StateRow)
    → find_state s sts ≡ some st
    → find_state s (sts ++ ys) ≡ some st
find_state-append_some s [] ys st e = cc
find_state-append_some s (x ∷ sts) ys st e = ground (arith, find_state-append_some s sts ys st)

pub has_state-false :
    (s : String) (sts : List StateRow) → has_state s sts ≡ false → find_state s sts ≡ none
has_state-false s [] e = refl
has_state-false s (x ∷ sts) e = ground (arith, has_state-false s sts)

pub has_state-true :
    (s : String) (sts : List StateRow)
    → has_state s sts ≡ true
    → (st : StateRow) × (find_state s sts ≡ some st)
has_state-true s [] e = cc
has_state-true s (x ∷ sts) e = elim (Bool-cases (str_eq x.session_id s)) [
  | inl h ↦ (x, ground arith)
  | inr h ↦ let (st, found) = has_state-true s sts (ground arith) in (st, ground arith)
]

-- An update that keeps the ids is seen by its own session only.
module _ (f : StateRow → StateRow)
    (keeps : (st : StateRow) → (f st).session_id ≡ st.session_id) where
  pub find-update_state :
      (s : String) (sts : List StateRow)
      → find_state s (update_state s f sts) ≡ Option.map f (find_state s sts)
  find-update_state s [] = refl
  find-update_state s (x ∷ sts) = elim (Bool-cases (str_eq x.session_id s)) [
    | inl h ↦ rw (h, keeps x, h) refl
    | inr h ↦ rw (h, h) (find-update_state s sts)
  ]

  pub find-update_state_ne :
      (s t : String) (sts : List StateRow)
      → s ≢ t
      → find_state t (update_state s f sts) ≡ find_state t sts
  find-update_state_ne s t [] h = refl
  find-update_state_ne s t (x ∷ sts) h =
      ground (
        arith,
        find-update_state_ne s t sts h,
        keeps x,
        eq_iff x.session_id s,
        eq_iff x.session_id t,
      )

pub find-delete_state_ne :
    (s t : String) (sts : List StateRow)
    → s ≢ t
    → find_state t (delete_state s sts) ≡ find_state t sts
find-delete_state_ne s t [] h = refl
find-delete_state_ne s t (x ∷ sts) h =
    ground (arith, find-delete_state_ne s t sts h, eq_iff x.session_id s, eq_iff x.session_id t)
