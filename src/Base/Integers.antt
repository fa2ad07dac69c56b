-- ===== src/Base/Integers.antt =====
-- Go's signed integers, without their bound.
use Prim.Native.Nat.{ℕ, zero, suc}
use mathlib.Core.Path.{◌≡◌, refl}
use native.Mathlib.Omega.{arith}
use pican.Base.Orders.{Sign, less, same, more, flip, compare_nat, IsOrder, compare_nat-IsOrder}

pub data ℤ : Type 0 where
  pos : ℕ → ℤ
  negsuc : ℕ → ℤ

abbrev pub negate : ℕ → ℤ
negate zero = pos 0
negate (suc n) = negsuc n

abbrev pub compare_int : ℤ → ℤ → Sign
compare_int (pos a) (pos b) = compare_nat a b
compare_int (pos a) (negsuc b) = more
compare_int (negsuc a) (pos b) = less
compare_int (negsuc a) (negsuc b) = compare_nat b a

int-flips : (a b : ℤ) → compare_int b a ≡ flip (compare_int a b)
int-flips (pos a) (pos b) = compare_nat-IsOrder.flips a b
int-flips (pos a) (negsuc b) = refl
int-flips (negsuc a) (pos b) = refl
int-flips (negsuc a) (negsuc b) = compare_nat-IsOrder.flips b a

int-equal : (a b c : ℤ) → compare_int a b ≡ same → compare_int a c ≡ compare_int b c
int-equal (pos a) (pos b) (pos c) h = compare_nat-IsOrder.equal a b c h
int-equal (pos a) (pos b) (negsuc c) h = refl
int-equal (pos a) (negsuc b) c h = cc
int-equal (negsuc a) (pos b) c h = cc
int-equal (negsuc a) (negsuc b) (pos c) h = refl
int-equal (negsuc a) (negsuc b) (negsuc c) h = ground arith

int-below : (a b c : ℤ) → compare_int a b ≡ less → compare_int b c ≡ less → compare_int a c ≡ less
int-below (pos a) (pos b) (pos c) h k = compare_nat-IsOrder.below a b c h k
int-below (pos a) (pos b) (negsuc c) h k = cc
int-below (pos a) (negsuc b) c h k = cc
int-below (negsuc a) b (pos c) h k = refl
int-below (negsuc a) (pos b) (negsuc c) h k = cc
int-below (negsuc a) (negsuc b) (negsuc c) h k = compare_nat-IsOrder.below c b a k h

pub compare_int-IsOrder : IsOrder compare_int
compare_int-IsOrder = record { flips = int-flips; equal = int-equal; below = int-below }
