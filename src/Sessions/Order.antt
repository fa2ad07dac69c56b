-- ===== src/Sessions/Order.antt =====
-- internal/sessions/session.go: SortSummariesByActivity and SortSummariesByProjectActivity. A
-- summary is any value, of which `time_of` is the time that its last activity parses to and
-- `project_of` the project. `sort.Slice` compares positions last, so that it keeps the order of the
-- rest.
pub mod Sorted
pub mod Gathered
pub mod Grouped
mod Tests
use pican.Base.{
  ℕ, Bool, true, false, List, [], ◌∷◌, ◌++◌, map, Option, none, some, String, if◌then◌else◌, ltb,
  str_eq,
}
use pican.Base.Orders.{Sign, less, same, more, compare_nat}

-- The newest first; what has no time comes last.
abbrev pub compare_activity : Option ℕ → Option ℕ → Sign
compare_activity (some s) (some t) = compare_nat t s
compare_activity (some s) none = less
compare_activity none (some t) = more
compare_activity none none = same

abbrev pub is_less : Sign → Bool
is_less less = true
is_less same = false
is_less more = false

module _ {A : Type 0} (time_of : A → Option ℕ) where
  abbrev pub place : A → List A → List A
  place x [] = x ∷ []
  place x (y ∷ ys) =
      if is_less (compare_activity (time_of y) (time_of x)) then y ∷ place x ys else x ∷ y ∷ ys

  unfoldable pub sort_summaries_by_activity : List A → List A
  sort_summaries_by_activity [] = []
  sort_summaries_by_activity (x ∷ xs) = place x (sort_summaries_by_activity xs)

pub record ProjectGroup (A : Type 0) : Type 0 where
  pub project : String
  pub items : List A
  pub latest : Option ℕ

abbrev pub sort_items : {A : Type 0} → (A → Option ℕ) → ProjectGroup A → ProjectGroup A
sort_items time_of g = record g { items = sort_summaries_by_activity time_of g.items }

abbrev pub concat_items : {A : Type 0} → List (ProjectGroup A) → List A
concat_items [] = []
concat_items (g ∷ gs) = g.items ++ concat_items gs

-- The later time, that of the group where they are equal.
abbrev pub later : Option ℕ → Option ℕ → Option ℕ
later latest none = latest
later none (some t) = some t
later (some l) (some t) = if ltb l t then some t else some l

module _ {A : Type 0} (time_of : A → Option ℕ) (project_of : A → String) where
  abbrev pub add_summary : List (ProjectGroup A) → A → List (ProjectGroup A)
  add_summary [] x = record { project = project_of x; items = x ∷ []; latest = time_of x } ∷ []
  add_summary (g ∷ gs) x =
      if str_eq g.project (project_of x)
      then record g { items = g.items ++ x ∷ []; latest = later g.latest (time_of x) } ∷ gs
      else g ∷ add_summary gs x

  abbrev pub add_summaries : List (ProjectGroup A) → List A → List (ProjectGroup A)
  add_summaries gs [] = gs
  add_summaries gs (x ∷ xs) = add_summaries (add_summary gs x) xs

  abbrev pub project_groups : List A → List (ProjectGroup A)
  project_groups s =
      sort_summaries_by_activity (λ (g : ProjectGroup A). g.latest)
        (map (sort_items time_of) (add_summaries [] s))

  unfoldable pub sort_summaries_by_project_activity : List A → List A
  sort_summaries_by_project_activity s = concat_items (project_groups s)
