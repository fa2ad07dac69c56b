-- ===== src/Base/Orders.antt =====
-- Three-way comparisons as Go's -1, 0 and 1, and the ways to build one from others.
use Prim.Native.Nat.{ℕ, compare, Ordering}
use mathlib.Core.Path.{◌≡◌, refl, sym, ap, ◌∙◌}
use mathlib.Core.Logic.{◌⊎◌, inl, inr}
use mathlib.Core.List.{List, [], ◌∷◌}
use native.Mathlib.Omega.{arith}

pub data Sign : Type 0 where
  less : Sign
  same : Sign
  more : Sign

abbrev pub flip : Sign → Sign
flip less = more
flip same = same
flip more = less

-- The second sign decides where the first is equal.
abbrev pub or_else : Sign → Sign → Sign
or_else less s = less
or_else same s = s
or_else more s = more

abbrev pub compare_nat : ℕ → ℕ → Sign
compare_nat a b = elim (compare a b) [
  | Ordering.lt ↦ less
  | Ordering.eq ↦ same
  | Ordering.gt ↦ more
]

-- A total order of classes: what is compared equal is one class.
pub record IsOrder {ℓ} {A : Type ℓ} (cmp : A → A → Sign) : Type ℓ where
  pub flips : (a b : A) → cmp b a ≡ flip (cmp a b)
  pub equal : (a b c : A) → cmp a b ≡ same → cmp a c ≡ cmp b c
  pub below : (a b c : A) → cmp a b ≡ less → cmp b c ≡ less → cmp a c ≡ less

pub compare_nat-IsOrder : IsOrder compare_nat
compare_nat-IsOrder = record {
  flips = λ a b. ground arith;
  equal = λ a b c h. ground arith;
  below = λ a b c h k. ground arith;
}

module _ {ℓ} {A : Type ℓ} (cmp : A → A → Sign) (o : IsOrder cmp) where
  pub IsOrder-same : (a : A) → cmp a a ≡ same
  IsOrder-same a = by_sign (cmp a a) (o.flips a a)
    where
      by_sign : (s : Sign) → s ≡ flip s → s ≡ same
      by_sign less e = cc
      by_sign same e = refl
      by_sign more e = cc

  -- A comparison by a value of each.
  pub by_value-IsOrder {κ} : {B : Type κ} (f : B → A) → IsOrder (λ b c. cmp (f b) (f c))
  by_value-IsOrder f = record {
    flips = λ a b. o.flips (f a) (f b);
    equal = λ a b c h. o.equal (f a) (f b) (f c) h;
    below = λ a b c h k. o.below (f a) (f b) (f c) h k;
  }

  pub equal_right : (a b c : A) → cmp b c ≡ same → cmp a b ≡ cmp a c
  equal_right a b c h = o.flips b a ∙ ap flip (o.equal b c a h) ∙ sym (o.flips c a)

-- What an order by two signs needs of them, for any values: the lemmas below have the signs alone.
abbrev pub Parts : Sign → Sign → Type 0
Parts s t = (s ≡ less) ⊎ ((s ≡ same) × (t ≡ less))

pub parts : (s t : Sign) → or_else s t ≡ less → Parts s t
parts less t h = inl refl
parts same t h = inr (refl, h)
parts more t h = cc

pub both_same : (s t : Sign) → or_else s t ≡ same → (s ≡ same) × (t ≡ same)
both_same less t h = cc
both_same same t h = (refl, h)
both_same more t h = cc

pub flip-or_else : (s t u v : Sign) → u ≡ flip s → v ≡ flip t → or_else u v ≡ flip (or_else s t)
flip-or_else less t u v e f = cc
flip-or_else same t u v e f = cc
flip-or_else more t u v e f = cc

-- The signs of three values by a first comparison and a second one: ab, bc and ac of each.
below_in_turn :
    (ab bc ac ab' bc' ac' : Sign)
    → (ab ≡ less → bc ≡ less → ac ≡ less)
    → (ab ≡ same → ac ≡ bc)
    → (bc ≡ same → ab ≡ ac)
    → (ab' ≡ less → bc' ≡ less → ac' ≡ less)
    → Parts ab ab'
    → Parts bc bc'
    → or_else ac ac' ≡ less
below_in_turn ab bc ac ab' bc' ac' t l r t' (inl p) (inl q) = rw (t p q) refl
below_in_turn ab bc ac ab' bc' ac' t l r t' (inl p) (inr (q, q')) = rw (sym (r q) ∙ p) refl
below_in_turn ab bc ac ab' bc' ac' t l r t' (inr (p, p')) (inl q) = rw (l p ∙ q) refl
below_in_turn ab bc ac ab' bc' ac' t l r t' (inr (p, p')) (inr (q, q')) = rw (l p ∙ q) (t' p' q')

module _ {ℓ} {A : Type ℓ} (cmp : A → A → Sign) where
  abbrev pub compare_lists : List A → List A → Sign
  compare_lists [] [] = same
  compare_lists [] (y ∷ ys) = less
  compare_lists (x ∷ xs) [] = more
  compare_lists (x ∷ xs) (y ∷ ys) = or_else (cmp x y) (compare_lists xs ys)

module _ {ℓ} {A : Type ℓ} (cmp : A → A → Sign) (o : IsOrder cmp) where
  -- The one that is compared first, and the others by `next` where it is equal.
  pub or_else-IsOrder :
      (next : A → A → Sign) → IsOrder next → IsOrder (λ a b. or_else (cmp a b) (next a b))
  or_else-IsOrder next p = record {
    flips =
        λ a b. flip-or_else (cmp a b) (next a b) (cmp b a) (next b a) (o.flips a b) (p.flips a b);
    equal = λ a b c h.
        let (e, f) = both_same (cmp a b) (next a b) h in cc (o.equal a b c e, p.equal a b c f);
    below = λ a b c h k.
        below_in_turn (cmp a b) (cmp b c) (cmp a c) (next a b) (next b c) (next a c) (o.below a b c)
          (o.equal a b c) (equal_right cmp o a b c) (p.below a b c) (parts (cmp a b) (next a b) h)
          (parts (cmp b c) (next b c) k);
  }

  lists-flips : (xs ys : List A) → compare_lists cmp ys xs ≡ flip (compare_lists cmp xs ys)
  lists-flips [] [] = refl
  lists-flips [] (y ∷ ys) = refl
  lists-flips (x ∷ xs) [] = refl
  lists-flips (x ∷ xs) (y ∷ ys) =
      flip-or_else (cmp x y) (compare_lists cmp xs ys) (cmp y x) (compare_lists cmp ys xs)
        (o.flips x y) (lists-flips xs ys)

  lists-equal :
      (xs ys zs : List A)
      → compare_lists cmp xs ys ≡ same
      → compare_lists cmp xs zs ≡ compare_lists cmp ys zs
  lists-equal [] [] zs h = refl
  lists-equal [] (y ∷ ys) zs h = cc
  lists-equal (x ∷ xs) [] zs h = cc
  lists-equal (x ∷ xs) (y ∷ ys) [] h = refl
  lists-equal (x ∷ xs) (y ∷ ys) (z ∷ zs) h =
      let (e, f) = both_same (cmp x y) (compare_lists cmp xs ys) h in
      cc (o.equal x y z e, lists-equal xs ys zs f)

  lists-below :
      (xs ys zs : List A)
      → compare_lists cmp xs ys ≡ less
      → compare_lists cmp ys zs ≡ less
      → compare_lists cmp xs zs ≡ less
  lists-below [] [] [] h k = cc
  lists-below [] (y ∷ ys) [] h k = cc
  lists-below [] ys (z ∷ zs) h k = refl
  lists-below (x ∷ xs) [] zs h k = cc
  lists-below (x ∷ xs) (y ∷ ys) [] h k = cc
  lists-below (x ∷ xs) (y ∷ ys) (z ∷ zs) h k =
      below_in_turn (cmp x y) (cmp y z) (cmp x z) (compare_lists cmp xs ys)
        (compare_lists cmp ys zs) (compare_lists cmp xs zs) (o.below x y z) (o.equal x y z)
        (equal_right cmp o x y z) (lists-below xs ys zs)
        (parts (cmp x y) (compare_lists cmp xs ys) h) (parts (cmp y z) (compare_lists cmp ys zs) k)

  pub compare_lists-IsOrder : IsOrder (compare_lists cmp)
  compare_lists-IsOrder = record { flips = lists-flips; equal = lists-equal; below = lists-below }

pub IsOrder-by {ℓ} :
    {A : Type ℓ} (cmp other : A → A → Sign)
    → ((a b : A) → other a b ≡ cmp a b)
    → IsOrder cmp
    → IsOrder other
IsOrder-by cmp other e o = record {
  flips = λ a b. e b a ∙ o.flips a b ∙ ap flip (sym (e a b));
  equal = λ a b c h. e a c ∙ o.equal a b c (sym (e a b) ∙ h) ∙ sym (e b c);
  below = λ a b c h k. e a c ∙ o.below a b c (sym (e a b) ∙ h) (sym (e b c) ∙ k);
}

pub or_else-same : (s : Sign) → or_else s same ≡ s
or_else-same less = refl
or_else-same same = refl
or_else-same more = refl
