-- ===== src/Sessions/Order/Sorted.antt =====
-- internal/sessions/session.go: the sort by activity.
use pican.Base.{
  ℕ, ◌+◌, ◌≤◌, ◌≡◌, refl, ◌∙◌, ap, inl, inr, true, false, List, [], ◌∷◌, Option, none, some, arith,
  Bool-cases,
}
use pican.Sessions.Order.{compare_activity, is_less, place, sort_summaries_by_activity}

-- The first time is not older than the second; none is the oldest.
abbrev pub IsNotOlder : Option ℕ → Option ℕ → Type 0
IsNotOlder (some s) (some t) = t ≤ s
IsNotOlder (some s) none = Unit
IsNotOlder none (some t) = ⊥
IsNotOlder none none = Unit

less-IsNotOlder : (s t : Option ℕ) → is_less (compare_activity s t) ≡ true → IsNotOlder s t
less-IsNotOlder (some s) (some t) h = ground arith
less-IsNotOlder (some s) none h = tt
less-IsNotOlder none (some t) h = cc
less-IsNotOlder none none h = tt

not_less-IsNotOlder : (s t : Option ℕ) → is_less (compare_activity s t) ≡ false → IsNotOlder t s
not_less-IsNotOlder (some s) (some t) h = ground arith
not_less-IsNotOlder (some s) none h = cc
not_less-IsNotOlder none (some t) h = tt
not_less-IsNotOlder none none h = tt

IsNotOlder-trans : (s t u : Option ℕ) → IsNotOlder s t → IsNotOlder t u → IsNotOlder s u
IsNotOlder-trans (some s) (some t) (some u) h k = omega arith
IsNotOlder-trans (some s) t none h k = tt
IsNotOlder-trans (some s) none (some u) h k = absurd k
IsNotOlder-trans none (some t) u h k = absurd h
IsNotOlder-trans none none u h k = k

-- What holds of each element.
abbrev pub Each : {A : Type 0} → (A → Type 0) → List A → Type 0
Each P [] = Unit
Each P (x ∷ xs) = P x × Each P xs

abbrev pub total : {A : Type 0} → (A → ℕ) → List A → ℕ
total weight [] = 0
total weight (x ∷ xs) = weight x + total weight xs

module _ {A : Type 0} (time_of : A → Option ℕ) where
  abbrev pub NoneNewer : Option ℕ → List A → Type 0
  NoneNewer t [] = Unit
  NoneNewer t (y ∷ ys) = IsNotOlder t (time_of y) × NoneNewer t ys

  abbrev pub IsNewestFirst : List A → Type 0
  IsNewestFirst [] = Unit
  IsNewestFirst (x ∷ xs) = NoneNewer (time_of x) xs × IsNewestFirst xs

  NoneNewer-trans :
      (s t : Option ℕ) (xs : List A) → IsNotOlder s t → NoneNewer t xs → NoneNewer s xs
  NoneNewer-trans s t [] h k = tt
  NoneNewer-trans s t (x ∷ xs) h (a, b) =
      (IsNotOlder-trans s t (time_of x) h a, NoneNewer-trans s t xs h b)

  place-NoneNewer :
      (t : Option ℕ) (x : A) (ys : List A)
      → IsNotOlder t (time_of x)
      → NoneNewer t ys
      → NoneNewer t (place time_of x ys)
  place-NoneNewer t x [] h k = (h, tt)
  place-NoneNewer t x (y ∷ ys) h (a, b) =
      elim (Bool-cases (is_less (compare_activity (time_of y) (time_of x)))) [
        | inl e ↦ rw e (a, place-NoneNewer t x ys h b)
        | inr e ↦ rw e (h, (a, b))
      ]

  place-IsNewestFirst :
      (x : A) (ys : List A) → IsNewestFirst ys → IsNewestFirst (place time_of x ys)
  place-IsNewestFirst x [] h = (tt, tt)
  place-IsNewestFirst x (y ∷ ys) (a, b) =
      elim (Bool-cases (is_less (compare_activity (time_of y) (time_of x)))) [
        | inl e ↦ rw e (
          place-NoneNewer (time_of y) x ys (less-IsNotOlder (time_of y) (time_of x) e) a,
          place-IsNewestFirst x ys b,
        )
        | inr e ↦
            let after = not_less-IsNotOlder (time_of y) (time_of x) e in
            rw e ((after, NoneNewer-trans (time_of x) (time_of y) ys after a), (a, b))
      ]

  pub sort-IsNewestFirst : (xs : List A) → IsNewestFirst (sort_summaries_by_activity time_of xs)
  unfolding sort_summaries_by_activity
  sort-IsNewestFirst [] = tt
  sort-IsNewestFirst (x ∷ xs) = place-IsNewestFirst x _ (sort-IsNewestFirst xs)

  pub place-Each :
      (P : A → Type 0) (x : A) (ys : List A) → P x → Each P ys → Each P (place time_of x ys)
  place-Each P x [] h k = (h, tt)
  place-Each P x (y ∷ ys) h (a, b) =
      elim (Bool-cases (is_less (compare_activity (time_of y) (time_of x)))) [
        | inl e ↦ rw e (a, place-Each P x ys h b)
        | inr e ↦ rw e (h, (a, b))
      ]

  pub sort-Each :
      (P : A → Type 0) (xs : List A) → Each P xs → Each P (sort_summaries_by_activity time_of xs)
  unfolding sort_summaries_by_activity
  sort-Each P [] h = tt
  sort-Each P (x ∷ xs) (a, b) = place-Each P x _ a (sort-Each P xs b)

  module _ (weight : A → ℕ) where
    total-place :
        (x : A) (ys : List A) → total weight (place time_of x ys) ≡ weight x + total weight ys
    total-place x [] = refl
    total-place x (y ∷ ys) =
        elim (Bool-cases (is_less (compare_activity (time_of y) (time_of x)))) [
          | inl e ↦ let rest = total-place x ys in rw (e, rest) (omega arith)
          | inr e ↦ rw e refl
        ]

    pub total-sort :
        (xs : List A) → total weight (sort_summaries_by_activity time_of xs) ≡ total weight xs
    unfolding sort_summaries_by_activity
    total-sort [] = refl
    total-sort (x ∷ xs) = total-place x _ ∙ ap (λ n. weight x + n) (total-sort xs)
