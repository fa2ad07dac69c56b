-- ===== src/Sessions/Order/Tests.antt =====
-- Sorted summaries on small inputs, and the theorem on them at one.
use pican.Base.{ℕ, ◌≡◌, refl, List, [], ◌∷◌, Option, some, none, String}
use pican.Sessions.Order.{sort_summaries_by_activity, sort_summaries_by_project_activity}
use pican.Sessions.Order.Grouped.{IsGrouped, sort_summaries_by_project_activity-IsGrouped}

abbrev Entry : Type 0
Entry = String × Option ℕ

abbrev entry_time : Entry → Option ℕ
entry_time e = e.1

abbrev entry_project : Entry → String
entry_project e = e.0

abbrev mixed : List Entry
mixed = ("a", some 1) ∷ ("b", some 2) ∷ ("c", none) ∷ ("a", some 3) ∷ []

projects_together :
    sort_summaries_by_project_activity entry_time entry_project mixed
    ≡ ("a", some 3) ∷ ("a", some 1) ∷ ("b", some 2) ∷ ("c", none) ∷ []
unfolding sort_summaries_by_project_activity sort_summaries_by_activity
projects_together = refl

sort_summaries_by_project_activity-IsGrouped_example :
    IsGrouped entry_time entry_project mixed
      (sort_summaries_by_project_activity entry_time entry_project mixed)
sort_summaries_by_project_activity-IsGrouped_example =
    sort_summaries_by_project_activity-IsGrouped entry_time entry_project mixed
