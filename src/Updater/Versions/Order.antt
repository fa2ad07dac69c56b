-- ===== src/Updater/Versions/Order.antt =====
-- internal/updater/updater.go: the comparison of versions is an order.
use pican.Base.{
  ℕ, ◌≡◌, refl, ◌∙◌, sym, ap, false, List, [], ◌∷◌, if◌then◌else◌, Bool-cases, inl, inr,
}
use pican.Base.Integers.{ℤ, compare_int, compare_int-IsOrder}
use pican.Base.Orders.{
  Sign, less, same, more, or_else, compare_nat, compare_lists, IsOrder, IsOrder-same,
  compare_nat-IsOrder, compare_lists-IsOrder, or_else-IsOrder, by_value-IsOrder, IsOrder-by,
  or_else-same,
}
use pican.Base.Text.{same as same_text, same_iff}
use pican.Updater.Versions.{
  Atoi, Core, atoi, split_dots, compare_text, compare_numbers, compare_identifier, is_empty,
  compare_prerelease, compare_cores, split_version, compare_semver,
}

-- An identifier's rank: numbers before other texts.
abbrev rank : Atoi → ℕ
rank m = if m.numeric then 0 else 1

abbrev number_of : Atoi → ℤ
number_of m = if m.numeric then m.value else ℤ.pos 0

abbrev text_of : Atoi → List ℕ → List ℕ
text_of m a = if m.numeric then [] else a

by_rank :
    (m n : Atoi) (a b : List ℕ)
    → compare_numbers m n a b
      ≡ or_else (compare_nat (rank m) (rank n)) (
          or_else
            (compare_int (number_of m) (number_of n))
            (compare_text (text_of m a) (text_of n b)))
by_rank m n a b = elim (Bool-cases m.numeric) [
  | inl p ↦ elim (Bool-cases n.numeric) [
    | inl q ↦ rw (p, q) (sym (or_else-same (compare_int m.value n.value)))
    | inr q ↦ rw (p, q) refl
  ]
  | inr p ↦ elim (Bool-cases n.numeric) [ inl q ↦ rw (p, q) refl | inr q ↦ rw (p, q) refl ]
]

compare_identifier-IsOrder : IsOrder compare_identifier
unfolding compare_identifier
compare_identifier-IsOrder =
    IsOrder-by _ compare_identifier (λ a b. by_rank (atoi a) (atoi b) a b)
      (or_else-IsOrder _ (by_value-IsOrder compare_nat compare_nat-IsOrder (λ a. rank (atoi a))) _ (
        or_else-IsOrder _
          (by_value-IsOrder compare_int compare_int-IsOrder (λ a. number_of (atoi a))) _
          (by_value-IsOrder compare_text (compare_lists-IsOrder compare_nat compare_nat-IsOrder)
            (λ a. text_of (atoi a) a))))

abbrev release_rank : List ℕ → ℕ
release_rank a = if is_empty a then 1 else 0

abbrev by_identifiers : List ℕ → List ℕ → Sign
by_identifiers a b = compare_lists compare_identifier (split_dots a) (split_dots b)

by_identifiers-IsOrder : IsOrder by_identifiers
by_identifiers-IsOrder =
    by_value-IsOrder (compare_lists compare_identifier)
      (compare_lists-IsOrder compare_identifier compare_identifier-IsOrder) split_dots

prerelease_by_rank :
    (a b : List ℕ)
    → compare_prerelease a b
      ≡ or_else (compare_nat (release_rank a) (release_rank b)) (by_identifiers a b)
unfolding compare_prerelease
prerelease_by_rank a b = elim (Bool-cases (same_text a b)) [
  | inl e ↦
      let alike : a ≡ b = (same_iff a b).0 e in
      let there : by_identifiers a b ≡ same =
        ap (by_identifiers a) (sym alike) ∙ IsOrder-same by_identifiers by_identifiers-IsOrder a in
      let ranks : compare_nat (release_rank a) (release_rank b) ≡ same =
        ap (λ c. compare_nat (release_rank a) (release_rank c)) (sym alike)
        ∙ IsOrder-same compare_nat compare_nat-IsOrder (release_rank a) in
      rw (e, ranks) (sym there)
  | inr e ↦ by_shape a b e
]
  where
    by_shape :
        (x y : List ℕ)
        → same_text x y ≡ false
        → (if same_text x y
            then same
            else if is_empty x
            then more
            else if is_empty y
            then less
            else by_identifiers x y)
          ≡ or_else (compare_nat (release_rank x) (release_rank y)) (by_identifiers x y)
    by_shape [] [] h = cc
    by_shape [] (y ∷ ys) h = refl
    by_shape (x ∷ xs) [] h = refl
    by_shape (x ∷ xs) (y ∷ ys) h = rw h refl

compare_prerelease-IsOrder : IsOrder compare_prerelease
compare_prerelease-IsOrder = IsOrder-by _ compare_prerelease prerelease_by_rank (
    or_else-IsOrder _ (by_value-IsOrder compare_nat compare_nat-IsOrder release_rank) _
      by_identifiers-IsOrder)

-- The comparison of versions is an order on all texts: compared the other way round the sign is the
-- opposite; versions that compare equal compare alike to every third; and it is transitive.
pub compare_semver-IsOrder : IsOrder compare_semver
unfolding compare_semver
compare_semver-IsOrder =
    by_value-IsOrder compare_cores
      (or_else-IsOrder _ (by_value-IsOrder compare_int compare_int-IsOrder (λ (c : Core). c.major))
        _
        (or_else-IsOrder _
          (by_value-IsOrder compare_int compare_int-IsOrder (λ (c : Core). c.minor)) _
          (or_else-IsOrder _
            (by_value-IsOrder compare_int compare_int-IsOrder (λ (c : Core). c.patch)) _
            (by_value-IsOrder compare_prerelease compare_prerelease-IsOrder
              (λ (c : Core). c.pre)))))
      split_version
