-- ===== src/Base/Text.antt =====
-- Text as code points, and the parts of Go's `strings`, `unicode` and `utf8` that the program
-- calls.
use Prim.Native.Char.{code}
use Prim.Native.Nat.{ℕ, ◌+◌}
use Prim.Native.String.{String}
use mathlib.Core.Path.{◌≡◌, refl}
use mathlib.Core.Logic.{◌↔◌}
use native.Mathlib.Omega.{arith}
use mathlib.Core.Bool.{Bool, true, false, ◌&&◌, ◌||◌}
use mathlib.Core.List.{List, [], ◌∷◌, reverse}
use pican.Base.Tests.{if◌then◌else◌, leb, ltb, ◌==◌}

abbrev pub codes : String → List ℕ
codes String.[] = []
codes (String.◌∷◌ c s) = code c ∷ codes s

abbrev pub between : ℕ → ℕ → ℕ → Bool
between lo hi c = leb lo c && leb c hi

-- `unicode.IsSpace`
unfoldable pub is_space : ℕ → Bool
is_space c =
    between 9 13 c
    || c == 32
    || c == 0x85
    || c == 0xa0
    || c == 0x1680
    || between 0x2000 0x200a c
    || c == 0x2028
    || c == 0x2029
    || c == 0x202f
    || c == 0x205f
    || c == 0x3000

-- `unicode.IsControl`
unfoldable pub is_control : ℕ → Bool
is_control c = ltb c 32 || between 127 159 c

unfoldable pub trim_left : List ℕ → List ℕ
unfolding is_space
trim_left [] = []
trim_left (c ∷ cs) = let rest = trim_left cs in if is_space c then rest else c ∷ cs

-- `strings.TrimSpace`
unfoldable pub trim_space : List ℕ → List ℕ
unfolding trim_left
trim_space cs = reverse (trim_left (reverse (trim_left cs)))

-- The bytes of a code point in UTF-8.
unfoldable pub rune_len : ℕ → ℕ
rune_len c = if ltb c 0x80 then 1 else if ltb c 0x800 then 2 else if ltb c 0x10000 then 3 else 4

-- `len` of a text.
unfoldable pub byte_len : List ℕ → ℕ
unfolding rune_len
byte_len [] = 0
byte_len (c ∷ cs) = rune_len c + byte_len cs

abbrev pub same : List ℕ → List ℕ → Bool
same [] [] = true
same (a ∷ as') (b ∷ bs) = a == b && same as' bs
same _ _ = false

pub same_iff : (xs ys : List ℕ) → (same xs ys ≡ true) ↔ (xs ≡ ys)
same_iff [] [] = (λ h. refl, λ h. refl)
same_iff [] (y ∷ ys) = (λ h. cc, λ h. cc)
same_iff (x ∷ xs) [] = (λ h. cc, λ h. cc)
same_iff (x ∷ xs) (y ∷ ys) = (
  λ h.
      let (a, b) = both (x == y) (same xs ys) h in
      let e : x ≡ y = ground arith in rw (e, (same_iff xs ys).0 b) refl,
  λ h.
      let e : x ≡ y = cc in
      let rest : same xs ys ≡ true = (same_iff xs ys).1 cc in rw rest (ground arith),
)
  where
    both : (a b : Bool) → (a && b) ≡ true → (a ≡ true) × (b ≡ true)
    both true true h = (refl, refl)
    both true false h = cc
    both false b h = cc

abbrev pub contains : ℕ → List ℕ → Bool
contains b [] = false
contains b (c ∷ cs) = if c == b then true else contains b cs

-- `strings.HasPrefix`, the prefix first.
abbrev pub has_prefix : List ℕ → List ℕ → Bool
has_prefix [] cs = true
has_prefix (p ∷ ps) [] = false
has_prefix (p ∷ ps) (c ∷ cs) = c == p && has_prefix ps cs
