-- ===== src/Workspace/Inside.antt =====
-- internal/workspace/containment.go: Contains, and what it says of two paths.
use pican.Base.{
  ◌≡◌, refl, ◌∙◌, sym, subst, inl, inr, Bool, true, false, not, [], ◌∷◌, ◌++◌, Option, none, some,
  Result, ok, err, if◌then◌else◌, Bool-cases,
}
use pican.Base.Text.{codes, same, same_iff}
use pican.Workspace.{
  Names, Refusal, outside_root, Resolver, strip_common, rel_of, is_below, contains, inside,
}

-- The path has the names of the root first.
abbrev pub IsInside : Names → Names → Type 0
IsInside root path = (rest : Names) × (path ≡ root ++ rest)

dots :
    (b : Bool) (ups rest : Names)
    → (if b then none else some (codes ".." ∷ ups)) ≡ some rest
    → is_below (some rest) ≡ true
    → ⊥
dots true ups rest h k = cc
dots false ups [] h k = cc
dots false ups (n ∷ ns) h k = go (cons-eq (some-eq h))
  where
    some-eq : some (codes ".." ∷ ups) ≡ some (n ∷ ns) → codes ".." ∷ ups ≡ n ∷ ns
    some-eq e = cc

    cons-eq : codes ".." ∷ ups ≡ n ∷ ns → codes ".." ≡ n
    cons-eq e = cc

    go : codes ".." ≡ n → ⊥
    go e = let bad : false ≡ true = subst (λ m. not (same m (codes "..")) ≡ true) (sym e) k in cc

-- A relative path that does not go up is what follows the root.
pub rel-below :
    (root path rel : Names)
    → rel_of (strip_common root path) ≡ some rel
    → is_below (some rel) ≡ true
    → path ≡ root ++ rel
rel-below [] path rel h k = cc
rel-below (b ∷ bs) [] rel h k = absurd (dots (same b (codes "..")) _ rel h k)
rel-below (b ∷ bs) (t ∷ ts) rel h k = elim (Bool-cases (same b t)) [
  | inl e ↦
      let rest = rel-below bs ts rel (by_test true e) k in
      let first : b ≡ t = (same_iff b t).0 e in λ i. sym first i ∷ rest i
  | inr e ↦ absurd (dots (same b (codes "..")) _ rel (by_test false e) k)
]
  where
    by_test :
        (x : Bool)
        → same b t ≡ x
        → rel_of (if x then strip_common bs ts else (b ∷ bs, t ∷ ts)) ≡ some rel
    by_test x e =
        subst (λ y. rel_of (if y then strip_common bs ts else (b ∷ bs, t ∷ ts)) ≡ some rel) e h

contains-IsInside : (root path : Names) → contains root path ≡ true → IsInside root path
unfolding contains
contains-IsInside root path h = by_rel (rel_of (strip_common root path)) refl h
  where
    by_rel :
        (o : Option Names)
        → rel_of (strip_common root path) ≡ o
        → is_below o ≡ true
        → IsInside root path
    by_rel none e k = cc
    by_rel (some rel) e k = (rel, rel-below root path rel e k)

ok-eq : (a b : Names) → ◌≡◌ {A = Result Refusal Names} (ok a) (ok b) → a ≡ b
ok-eq a b h = cc

pub inside-IsInside :
    (r : Resolver) (path c : Names) → inside r path ≡ ok c → (path ≡ c) × IsInside r.root c
inside-IsInside r path c h = elim (Bool-cases (contains r.root path)) [
  | inl e ↦
      let yes : inside r path ≡ ok path = rw e refl in
      let is : path ≡ c = ok-eq path c (sym yes ∙ h) in
      (is, subst (IsInside r.root) is (contains-IsInside r.root path e))
  | inr e ↦ let no : inside r path ≡ err outside_root = rw e refl in absurd (refused (sym no ∙ h))
]
  where
    refused : ◌≡◌ {A = Result Refusal Names} (err outside_root) (ok c) → ⊥
    refused k = cc

pub two_tests :
    (a b : Bool) (e f : Refusal) (x : Result Refusal Names) (c : Names)
    → (if a then err e else if b then err f else x) ≡ ok c
    → (a ≡ false) × (b ≡ false) × (x ≡ ok c)
two_tests true b e f x c h = cc
two_tests false true e f x c h = cc
two_tests false false e f x c h = (refl, refl, h)
