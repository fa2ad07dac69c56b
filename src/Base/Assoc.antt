-- ===== src/Base/Assoc.antt =====
-- Go maps with text keys, as association lists.
use Prim.Native.Nat.{ℕ, ◌+◌}
use Prim.Native.String.{String}
use mathlib.Core.Path.{◌≡◌, refl}
use mathlib.Core.Logic.{inl, inr}
use mathlib.Core.Bool.{Bool, not}
use mathlib.Core.List.{List, [], ◌∷◌, ◌++◌, map}
use mathlib.Core.Option.{Option, none, some}
use native.Mathlib.Omega.{arith}
use text.Mathlib.TextEquality.{eq_iff}
use pican.Base.Lists.{filter_by}
use pican.Base.Tests.{if◌then◌else◌, str_eq, ◌==◌, Bool-cases}

module _ {ℓ} {V : Type ℓ} where
  abbrev pub lookup : String → List (String × V) → Option V
  lookup k [] = none
  lookup k ((j, v) ∷ m) = if str_eq j k then some v else lookup k m

  -- `m[k] = v`
  abbrev pub insert : String → V → List (String × V) → List (String × V)
  insert k v [] = (k, v) ∷ []
  insert k v ((j, w) ∷ m) = if str_eq j k then (k, v) ∷ m else (j, w) ∷ insert k v m

  -- `delete(m, k)`
  abbrev pub delete : String → List (String × V) → List (String × V)
  delete k [] = []
  delete k ((j, w) ∷ m) = if str_eq j k then delete k m else (j, w) ∷ delete k m

  pub lookup-insert :
      (k j : String) (v : V) (m : List (String × V))
      → lookup j (insert k v m) ≡ (if str_eq k j then some v else lookup j m)
  lookup-insert k j v [] = refl
  lookup-insert k j v ((i, w) ∷ m) =
      ground (arith, eq_iff k j, eq_iff i k, eq_iff i j, lookup-insert k j v m)

  pub lookup-delete :
      (k j : String) (m : List (String × V))
      → lookup j (delete k m) ≡ (if str_eq k j then none else lookup j m)
  lookup-delete k j [] = ground arith
  lookup-delete k j ((i, w) ∷ m) =
      ground (arith, eq_iff k j, eq_iff i k, eq_iff i j, lookup-delete k j m)

-- How often a number stands in a list.
abbrev pub count : ℕ → List ℕ → ℕ
count n [] = 0
count n (x ∷ xs) = (if x == n then 1 else 0) + count n xs

abbrev pub values : List (String × ℕ) → List ℕ
values = map (λ b. b.1)

pub count-insert :
    (n : ℕ) (k : String) (v : ℕ) (m : List (String × ℕ))
    → lookup k m ≡ none
    → count n (values (insert k v m)) ≡ count n (values m) + (if v == n then 1 else 0)
count-insert n k v [] h = ground arith
count-insert n k v ((j, w) ∷ m) h = ground (arith, count-insert n k v m)

-- No key occurs twice.
abbrev pub IsMap {ℓ} : {V : Type ℓ} → List (String × V) → Type ℓ
IsMap [] = Unit
IsMap ((k, v) ∷ m) = (lookup k m ≡ none) × IsMap m

module _ {ℓ} {V : Type ℓ} where
  pub insert-IsMap : (k : String) (v : V) (m : List (String × V)) → IsMap m → IsMap (insert k v m)
  insert-IsMap k v [] h = (refl, tt)
  insert-IsMap k v ((j, w) ∷ m) (a, h) = elim (Bool-cases (str_eq j k)) [
    | inl e ↦ rw e (rw (← (eq_iff j k).0 e) a, h)
    | inr e ↦
        rw e (ground (arith, lookup-insert k j v m, eq_iff k j, eq_iff j k), insert-IsMap k v m h)
  ]

  pub delete-IsMap : (k : String) (m : List (String × V)) → IsMap m → IsMap (delete k m)
  delete-IsMap k [] h = tt
  delete-IsMap k ((j, w) ∷ m) (a, h) = elim (Bool-cases (str_eq j k)) [
    | inl e ↦ rw e (delete-IsMap k m h)
    | inr e ↦ rw e (ground (arith, lookup-delete k j m), delete-IsMap k m h)
  ]

  pub delete-absent : (k : String) (m : List (String × V)) → lookup k m ≡ none → delete k m ≡ m
  delete-absent k [] h = refl
  delete-absent k ((j, w) ∷ m) h = ground (arith, delete-absent k m)

pub count-delete :
    (n : ℕ) (k : String) (v : ℕ) (m : List (String × ℕ))
    → IsMap m
    → lookup k m ≡ some v
    → count n (values m) ≡ count n (values (delete k m)) + (if v == n then 1 else 0)
count-delete n k v [] h e = cc
count-delete n k v ((j, w) ∷ m) (a, h) e = elim (Bool-cases (str_eq j k)) [
  | inl same ↦
      let gone = delete-absent k m (rw (← (eq_iff j k).0 same) a) in rw (same, gone) (ground arith)
  | inr other ↦ rw other (ground (arith, count-delete n k v m h))
]

pub count-append : (n : ℕ) (xs ys : List ℕ) → count n (xs ++ ys) ≡ count n xs + count n ys
count-append n [] ys = omega arith
count-append n (x ∷ xs) ys = omega (arith, count-append n xs ys)

module _ {ℓ} {V : Type ℓ} (p : String × V → Bool) where
  pub lookup-filter_none :
      (k : String) (m : List (String × V)) → lookup k m ≡ none → lookup k (filter_by p m) ≡ none
  lookup-filter_none k [] h = refl
  lookup-filter_none k ((j, v) ∷ m) h = ground (arith, lookup-filter_none k m)

  pub filter-IsMap : (m : List (String × V)) → IsMap m → IsMap (filter_by p m)
  filter-IsMap [] h = tt
  filter-IsMap ((k, v) ∷ m) (a, h) = elim (Bool-cases (p (k, v))) [
    | inl e ↦ rw e (lookup-filter_none k m a, filter-IsMap m h)
    | inr e ↦ rw e (filter-IsMap m h)
  ]

pub count-filter :
    (n : ℕ) (p : String × ℕ → Bool) (m : List (String × ℕ))
    → count n (values m)
      ≡ count n (values (filter_by (λ b. not (p b)) m)) + count n (values (filter_by p m))
count-filter n p [] = refl
count-filter n p (b ∷ m) = ground (arith, count-filter n p m)
