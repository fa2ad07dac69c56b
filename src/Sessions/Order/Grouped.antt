-- ===== src/Sessions/Order/Grouped.antt =====
-- internal/sessions/session.go: the sort by projects keeps each project's sessions together.
use pican.Base.{
  ℕ, ◌+◌, ◌≡◌, ◌≢◌, refl, ◌∙◌, sym, inl, inr, List, [], ◌∷◌, map, Option, String, arith, Bool-cases,
}
use pican.Sessions.Order.{
  compare_activity, is_less, place, sort_summaries_by_activity, ProjectGroup, add_summaries,
  sort_items, concat_items, project_groups, sort_summaries_by_project_activity,
}
use pican.Sessions.Order.Sorted.{
  IsNewestFirst, Each, place-Each, sort-Each, sort-IsNewestFirst, total, total-sort,
}
use pican.Sessions.Order.Gathered.{
  newest, newest-sort, IsOwned, IsAbsent, AreDistinct, total-append, total-concat_items, IsGathered,
  gathered, add_summaries-total,
}

module _ {A : Type 0} (time_of : A → Option ℕ) (project_of : A → String) where
  -- A group at the end: its sessions are those of its project, the newest first, and the group's
  -- time is the newest.
  pub record IsProjectGroup (g : ProjectGroup A) : Type 0 where
    pub owned : IsOwned project_of g
    pub newest_first : IsNewestFirst time_of g.items
    pub latest_is : g.latest ≡ newest time_of g.items

  sort_items-IsProjectGroup :
      (g : ProjectGroup A) → IsGathered time_of project_of g → IsProjectGroup (sort_items time_of g)
  sort_items-IsProjectGroup g (a, b) = record {
    owned = sort-Each time_of (λ x. project_of x ≡ g.project) g.items a;
    newest_first = sort-IsNewestFirst time_of g.items;
    latest_is = b ∙ sym (newest-sort time_of g.items);
  }

  sorted_groups :
      (gs : List (ProjectGroup A))
      → Each (IsGathered time_of project_of) gs
      → Each IsProjectGroup (map (sort_items time_of) gs)
  sorted_groups [] h = tt
  sorted_groups (g ∷ gs) (a, b) = (sort_items-IsProjectGroup g a, sorted_groups gs b)

  map-IsAbsent :
      (p : String) (gs : List (ProjectGroup A))
      → IsAbsent p gs
      → IsAbsent p (map (sort_items time_of) gs)
  map-IsAbsent p [] h = tt
  map-IsAbsent p (g ∷ gs) (a, b) = (a, map-IsAbsent p gs b)

  map-AreDistinct :
      (gs : List (ProjectGroup A)) → AreDistinct gs → AreDistinct (map (sort_items time_of) gs)
  map-AreDistinct [] h = tt
  map-AreDistinct (g ∷ gs) (a, b) = (map-IsAbsent g.project gs a, map-AreDistinct gs b)

  map-total :
      (w : A → ℕ) (gs : List (ProjectGroup A))
      → total w (concat_items (map (sort_items time_of) gs)) ≡ total w (concat_items gs)
  map-total w [] = refl
  map-total w (g ∷ gs) =
      rw
        (
          total-append w (sort_summaries_by_activity time_of g.items)
              (concat_items (map (sort_items time_of) gs)),
          total-append w g.items (concat_items gs),
          total-sort time_of w g.items,
          map-total w gs,
        )
        refl

  abbrev time_of_group : ProjectGroup A → Option ℕ
  time_of_group g = g.latest

  place-AreDistinct :
      (g : ProjectGroup A) (gs : List (ProjectGroup A))
      → IsAbsent g.project gs
      → AreDistinct gs
      → AreDistinct (place time_of_group g gs)
  place-AreDistinct g [] a d = (tt, tt)
  place-AreDistinct g (h ∷ gs) (k, a) (b, d) =
      elim (Bool-cases (is_less (compare_activity h.latest g.latest))) [
        | inl e ↦ rw e (
          place-Each time_of_group (λ x. x.project ≢ h.project) g gs (λ q. k (sym q)) b,
          place-AreDistinct g gs a d,
        )
        | inr e ↦ rw e ((k, a), (b, d))
      ]

  sort-AreDistinct :
      (gs : List (ProjectGroup A))
      → AreDistinct gs
      → AreDistinct (sort_summaries_by_activity time_of_group gs)
  unfolding sort_summaries_by_activity
  sort-AreDistinct [] h = tt
  sort-AreDistinct (g ∷ gs) (a, b) =
      place-AreDistinct g _ (sort-Each time_of_group (λ x. x.project ≢ g.project) gs a)
        (sort-AreDistinct gs b)

  -- A list of sessions by projects: it is its groups, one after the other, of different projects,
  -- those with the newest sessions first; and it has the sessions of the other list, whatever is
  -- added up over them.
  pub record IsGrouped (s sorted : List A) : Type 0 where
    pub groups : List (ProjectGroup A)
    pub written : sorted ≡ concat_items groups
    pub distinct : AreDistinct groups
    pub each : Each IsProjectGroup groups
    pub newest_first : IsNewestFirst time_of_group groups
    pub same_sessions : (w : A → ℕ) → total w sorted ≡ total w s

  -- The sort by projects keeps the sessions and puts those of a project together, the
  -- newest first and those without a time last, and the projects in the order of their newest
  -- sessions.
  pub sort_summaries_by_project_activity-IsGrouped :
      (s : List A) → IsGrouped s (sort_summaries_by_project_activity time_of project_of s)
  unfolding sort_summaries_by_project_activity
  sort_summaries_by_project_activity-IsGrouped s =
      let (distinct, each) = gathered time_of project_of [] s tt tt in
      let gs : List (ProjectGroup A) =
        map (sort_items time_of) (add_summaries time_of project_of [] s) in
      record {
        groups = project_groups time_of project_of s;
        written = refl;
        distinct = sort-AreDistinct gs (map-AreDistinct _ distinct);
        each = sort-Each time_of_group IsProjectGroup gs (sorted_groups _ each);
        newest_first = sort-IsNewestFirst time_of_group gs;
        same_sessions = λ w.
            total-concat_items w (project_groups time_of project_of s)
            ∙ total-sort time_of_group (λ g. total w g.items) gs
            ∙ sym (total-concat_items w gs)
            ∙ map-total w (add_summaries time_of project_of [] s)
            ∙ add_summaries-total time_of project_of w [] s
            ∙ zero_plus (total w s);
      }
    where
      zero_plus : (n : ℕ) → 0 + n ≡ n
      zero_plus n = omega arith
