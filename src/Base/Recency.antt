-- ===== src/Base/Recency.antt =====
-- Go's map of list elements beside a `list.List` of them, as a cache keeps by recency: a map, and
-- its keys in the order of the list. An element is known by its key.
use Prim.Native.Nat.{ℕ, ◌+◌, ◌<◌}
use Prim.Native.String.{String}
use mathlib.Core.Path.{◌≡◌, refl, ap, ◌∙◌}
use mathlib.Core.Logic.{◌⊎◌, inl, inr}
use mathlib.Core.Bool.{Bool, true, false}
use mathlib.Core.List.{List, [], ◌∷◌, ◌++◌, append-nil}
use mathlib.Core.Option.{Option, none, some}
use native.Mathlib.Omega.{arith}
use text.Mathlib.TextEquality.{eq_iff}
use pican.Base.Tests.{if◌then◌else◌, str_eq, str_eq_self, Bool-cases, Option-cases}
use pican.Base.Assoc.{lookup, insert, delete, lookup-insert, lookup-delete}

abbrev pub occurs : String → List String → ℕ
occurs k [] = 0
occurs k (j ∷ o) = (if str_eq j k then 1 else 0) + occurs k o

-- `order.Remove(element)`
abbrev pub without : String → List String → List String
without k [] = []
without k (j ∷ o) = if str_eq j k then without k o else j ∷ without k o

-- `order.Back()`
abbrev pub last : List String → Option String
last [] = none
last (j ∷ []) = some j
last (j ∷ i ∷ o) = last (i ∷ o)

abbrev pub is_some {ℓ} : {A : Type ℓ} → Option A → Bool
is_some none = false
is_some (some a) = true

pub occurs-append : (k : String) (o p : List String) → occurs k (o ++ p) ≡ occurs k o + occurs k p
occurs-append k [] p = omega arith
occurs-append k (j ∷ o) p = omega (arith, occurs-append k o p)

pub occurs-without :
    (k j : String) (o : List String)
    → occurs j (without k o) ≡ (if str_eq k j then 0 else occurs j o)
occurs-without k j [] = ground arith
occurs-without k j (i ∷ o) =
    ground (arith, eq_iff k j, eq_iff i k, eq_iff i j, occurs-without k j o)

pub without-absent : (k : String) (o : List String) → occurs k o ≡ 0 → without k o ≡ o
without-absent k [] h = refl
without-absent k (j ∷ o) h = ground (arith, without-absent k o)

pub last_cases :
    (o : List String)
    → ((o ≡ []) × (last o ≡ none))
      ⊎ ((front : List String) × (p : String) × (o ≡ front ++ p ∷ []) × (last o ≡ some p))
last_cases [] = inl (refl, refl)
last_cases (j ∷ []) = inr ([], j, refl, refl)
last_cases (j ∷ i ∷ o) = elim (last_cases (i ∷ o)) [
  | inl (e, _) ↦ cc
  | inr (front, p, e, back) ↦ inr (j ∷ front, p, ap (λ r. j ∷ r) e, back)
]

without-append : (k : String) (o p : List String) → without k (o ++ p) ≡ without k o ++ without k p
without-append k [] p = refl
without-append k (j ∷ o) p = ground (arith, without-append k o p)

pub without-last :
    (o front : List String) (p : String)
    → o ≡ front ++ p ∷ []
    → occurs p o ≡ 1
    → without p o ≡ front
without-last o front p e h =
    let once : occurs p (front ++ p ∷ []) ≡ 1 = rw (← e) h in
    let gone : occurs p front ≡ 0 = omega (arith, occurs-append p front (p ∷ []), once, single p) in
    rw e (
      without-append p front (p ∷ [])
      ∙ rw (without-absent p front gone, str_eq_self p) (append-nil front))
  where
    single : (q : String) → occurs q (q ∷ []) ≡ 1
    single q = rw (str_eq_self q) refl

-- The map's keys are those of the list, each once.
abbrev pub InStep {ℓ} : {V : Type ℓ} → List (String × V) → List String → Type 0
InStep m o = (k : String) → occurs k o ≡ (if is_some (lookup k m) then 1 else 0)

module _ {ℓ} {V : Type ℓ} where
  pub InStep-delete :
      (k : String) (m : List (String × V)) (o : List String)
      → InStep m o
      → InStep (delete k m) (without k o)
  InStep-delete k m o h j = elim (Bool-cases (str_eq k j)) [
    | inl e ↦ rw (occurs-without k j o, lookup-delete k j m, e) refl
    | inr e ↦ rw (occurs-without k j o, lookup-delete k j m, e) (h j)
  ]

  -- A key at the front, with its value.
  pub InStep-insert :
      (k : String) (v : V) (m : List (String × V)) (o : List String)
      → InStep m o
      → InStep (insert k v m) (k ∷ without k o)
  InStep-insert k v m o h j = elim (Bool-cases (str_eq k j)) [
    | inl e ↦ rw (occurs-without k j o, lookup-insert k j v m, e) refl
    | inr e ↦ rw (occurs-without k j o, lookup-insert k j v m, e) (omega (arith, h j))
  ]

  pub InStep-touch :
      (k : String) (v : V) (m : List (String × V)) (o : List String)
      → lookup k m ≡ some v
      → InStep m o
      → InStep m (k ∷ without k o)
  InStep-touch k v m o at h j = elim (Bool-cases (str_eq k j)) [
    | inl e ↦
        let same : k ≡ j = (eq_iff k j).0 e in
        let here : lookup j m ≡ some v = rw (← same) at in rw (occurs-without k j o, e, here) refl
    | inr e ↦ rw (occurs-without k j o, e) (omega (arith, h j))
  ]

  pub InStep-none :
      (k : String) (m : List (String × V)) (o : List String)
      → InStep m o
      → lookup k m ≡ none
      → without k o ≡ o
  InStep-none k m o h e = without-absent k o (h k ∙ rw e refl)

  pub InStep-some :
      (k : String) (m : List (String × V)) (o : List String)
      → InStep m o
      → 0 < occurs k o
      → (v : V) × (lookup k m ≡ some v)
  InStep-some k m o h e = elim (Option-cases (lookup k m)) [
    | inl missing ↦ let never : occurs k o ≡ 0 = h k ∙ rw missing refl in absurd (omega arith)
    | inr found ↦ found
  ]
