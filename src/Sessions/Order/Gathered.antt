-- ===== src/Sessions/Order/Gathered.antt =====
-- internal/sessions/session.go: the groups of sessions by their projects.
use pican.Base.{
  ℕ, ◌+◌, ◌≡◌, ◌≢◌, refl, ◌∙◌, sym, ap, inl, inr, true, false, List, [], ◌∷◌, ◌++◌, map, Option,
  none, some, String, ltb, str_eq, eq_iff, arith, Bool-cases,
}
use pican.Sessions.Order.{
  compare_activity, is_less, place, sort_summaries_by_activity, ProjectGroup, later, add_summary,
  add_summaries, concat_items,
}
use pican.Sessions.Order.Sorted.{Each, total}

later_assoc : (a b c : Option ℕ) → later (later a b) c ≡ later a (later b c)
later_assoc none none none = refl
later_assoc none none (some c) = refl
later_assoc none (some b) none = refl
later_assoc none (some b) (some c) = elim (Bool-cases (ltb b c)) [
  | inl e ↦ rw e refl
  | inr e ↦ rw e refl
]
later_assoc (some a) b none = refl
later_assoc (some a) none (some c) = refl
later_assoc (some a) (some b) (some c) = ground arith

later_swap : (a b c : Option ℕ) → later b (later a c) ≡ later a (later b c)
later_swap none none c = refl
later_swap none (some b) none = refl
later_swap none (some b) (some c) = ground arith
later_swap (some a) none none = refl
later_swap (some a) none (some c) = ground arith
later_swap (some a) (some b) none = ground arith
later_swap (some a) (some b) (some c) = ground arith

differ : (s t : String) → str_eq s t ≡ false → s ≢ t
differ s t h e = let bad : false ≡ true = sym h ∙ (eq_iff s t).1 e in cc

module _ {A : Type 0} (time_of : A → Option ℕ) where
  -- The newest time of a list, none where there is none.
  abbrev pub newest : List A → Option ℕ
  newest [] = none
  newest (x ∷ xs) = later (time_of x) (newest xs)

  later-none : (t : Option ℕ) → later none t ≡ t
  later-none none = refl
  later-none (some t) = refl

  newest-append : (xs : List A) (x : A) → newest (xs ++ x ∷ []) ≡ later (newest xs) (time_of x)
  newest-append [] x = sym (later-none (time_of x))
  newest-append (y ∷ ys) x =
      ap (later (time_of y)) (newest-append ys x)
      ∙ sym (later_assoc (time_of y) (newest ys) (time_of x))

  newest-place : (x : A) (ys : List A) → newest (place time_of x ys) ≡ later (time_of x) (newest ys)
  newest-place x [] = refl
  newest-place x (y ∷ ys) = elim (Bool-cases (is_less (compare_activity (time_of y) (time_of x)))) [
    | inl e ↦ rw (e, newest-place x ys) (later_swap (time_of x) (time_of y) (newest ys))
    | inr e ↦ rw e refl
  ]

  pub newest-sort : (xs : List A) → newest (sort_summaries_by_activity time_of xs) ≡ newest xs
  unfolding sort_summaries_by_activity
  newest-sort [] = refl
  newest-sort (x ∷ xs) = newest-place x _ ∙ ap (later (time_of x)) (newest-sort xs)

module _ {A : Type 0} (project_of : A → String) where
  -- The sessions of a group are all those of one project.
  abbrev pub IsOwned : ProjectGroup A → Type 0
  IsOwned g = Each (λ x. project_of x ≡ g.project) g.items

abbrev pub IsAbsent : {A : Type 0} → String → List (ProjectGroup A) → Type 0
IsAbsent p gs = Each (λ (g : ProjectGroup _). g.project ≢ p) gs

abbrev pub AreDistinct : {A : Type 0} → List (ProjectGroup A) → Type 0
AreDistinct [] = Unit
AreDistinct (g ∷ gs) = IsAbsent g.project gs × AreDistinct gs

Each-append :
    {A : Type 0} (P : A → Type 0) (xs : List A) (x : A) → Each P xs → P x → Each P (xs ++ x ∷ [])
Each-append P [] x h k = (k, tt)
Each-append P (y ∷ ys) x (a, b) k = (a, Each-append P ys x b k)

Each-map :
    {A : Type 0} (P : A → Type 0) (f : A → A)
    → ((x : A) → P x → P (f x))
    → (xs : List A) → Each P xs
    → Each P (map f xs)
Each-map P f s [] h = tt
Each-map P f s (x ∷ xs) (a, b) = (s x a, Each-map P f s xs b)

pub total-append :
    {A : Type 0} (w : A → ℕ) (xs ys : List A) → total w (xs ++ ys) ≡ total w xs + total w ys
total-append w [] ys = omega arith
total-append w (x ∷ xs) ys = let rest = total-append w xs ys in rw rest (omega arith)

pub total-concat_items :
    {A : Type 0} (w : A → ℕ) (gs : List (ProjectGroup A))
    → total w (concat_items gs) ≡ total (λ g. total w g.items) gs
total-concat_items w [] = refl
total-concat_items w (g ∷ gs) =
    total-append w g.items (concat_items gs)
    ∙ ap (λ n. total w g.items + n) (total-concat_items w gs)

module _ {A : Type 0} (time_of : A → Option ℕ) (project_of : A → String) where
  -- A group as the first loop leaves it.
  abbrev pub IsGathered : ProjectGroup A → Type 0
  IsGathered g = IsOwned project_of g × (g.latest ≡ newest time_of g.items)

  joined-IsGathered :
      (g : ProjectGroup A) (x : A)
      → project_of x ≡ g.project
      → IsGathered g
      → IsGathered (record g { items = g.items ++ x ∷ []; latest = later g.latest (time_of x) })
  joined-IsGathered g x h (a, b) = (
    Each-append (λ y. project_of y ≡ g.project) g.items x a h,
    ap (λ t. later t (time_of x)) b ∙ sym (newest-append time_of g.items x),
  )

  add_summary-IsAbsent :
      (p : String) (gs : List (ProjectGroup A)) (x : A)
      → project_of x ≢ p
      → IsAbsent p gs
      → IsAbsent p (add_summary time_of project_of gs x)
  add_summary-IsAbsent p [] x h k = (h, tt)
  add_summary-IsAbsent p (g ∷ gs) x h (a, b) = elim (Bool-cases (str_eq g.project (project_of x))) [
    | inl e ↦ rw e (a, b)
    | inr e ↦ rw e (a, add_summary-IsAbsent p gs x h b)
  ]

  add_summary-AreDistinct :
      (gs : List (ProjectGroup A)) (x : A)
      → AreDistinct gs
      → AreDistinct (add_summary time_of project_of gs x)
  add_summary-AreDistinct [] x h = (tt, tt)
  add_summary-AreDistinct (g ∷ gs) x (a, b) = elim (Bool-cases (str_eq g.project (project_of x))) [
    | inl e ↦ rw e (a, b)
    | inr e ↦
        let other : project_of x ≢ g.project = λ k. differ g.project (project_of x) e (sym k) in
        rw e (add_summary-IsAbsent g.project gs x other a, add_summary-AreDistinct gs x b)
  ]

  add_summary-IsGathered :
      (gs : List (ProjectGroup A)) (x : A)
      → Each IsGathered gs
      → Each IsGathered (add_summary time_of project_of gs x)
  add_summary-IsGathered [] x h = (((refl, tt), refl), tt)
  add_summary-IsGathered (g ∷ gs) x (a, b) = elim (Bool-cases (str_eq g.project (project_of x))) [
    | inl e ↦ rw e (joined-IsGathered g x (sym ((eq_iff g.project (project_of x)).0 e)) a, b)
    | inr e ↦ rw e (a, add_summary-IsGathered gs x b)
  ]

  add_summary-total :
      (w : A → ℕ) (gs : List (ProjectGroup A)) (x : A)
      → total w (concat_items (add_summary time_of project_of gs x))
        ≡ total w (concat_items gs) + w x
  add_summary-total w [] x = omega arith
  add_summary-total w (g ∷ gs) x = elim (Bool-cases (str_eq g.project (project_of x))) [
    | inl e ↦
        rw
          (
            e,
            total-append w (g.items ++ x ∷ []) (concat_items gs),
            total-append w g.items (x ∷ []),
            total-append w g.items (concat_items gs),
          )
          (omega arith)
    | inr e ↦
        rw
          (
            e,
            total-append w g.items (concat_items (add_summary time_of project_of gs x)),
            add_summary-total w gs x,
            total-append w g.items (concat_items gs),
          )
          (omega arith)
  ]

  pub gathered :
      (gs : List (ProjectGroup A)) (xs : List A)
      → AreDistinct gs
      → Each IsGathered gs
      → AreDistinct (add_summaries time_of project_of gs xs)
        × Each IsGathered (add_summaries time_of project_of gs xs)
  gathered gs [] h k = (h, k)
  gathered gs (x ∷ xs) h k =
      gathered (add_summary time_of project_of gs x) xs (add_summary-AreDistinct gs x h)
        (add_summary-IsGathered gs x k)

  pub add_summaries-total :
      (w : A → ℕ) (gs : List (ProjectGroup A)) (xs : List A)
      → total w (concat_items (add_summaries time_of project_of gs xs))
        ≡ total w (concat_items gs) + total w xs
  add_summaries-total w gs [] = omega arith
  add_summaries-total w gs (x ∷ xs) =
      let rest = add_summaries-total w (add_summary time_of project_of gs x) xs in
      let one = add_summary-total w gs x in rest ∙ omega arith
