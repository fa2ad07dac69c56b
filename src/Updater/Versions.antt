-- ===== src/Updater/Versions.antt =====
-- internal/updater/updater.go: the comparison of versions, on bytes.
pub mod Order
use pican.Base.{
  ℕ, zero, suc, ◌+◌, ◌-◌, ◌*◌, Bool, true, false, ◌&&◌, ◌||◌, List, [], ◌∷◌, Option, none, some,
  ltb, leb, ◌==◌, if◌then◌else◌,
}
use pican.Base.Integers.{ℤ, pos, negsuc, negate, compare_int}
use pican.Base.Orders.{Sign, less, same, more, or_else, compare_nat, compare_lists}
use pican.Base.Text.{between, same as same_text}
use pican.Sessions.Bytes.{trim_bytes}

-- `strconv.Atoi`: the value, which is the nearest one where the text is out of range and zero where
-- it is no number, and whether there is no error.
pub record Atoi : Type 0 where
  pub value : ℤ
  pub numeric : Bool

-- The number that these digits go on to write, none where another byte is among them.
abbrev pub digits_from : ℕ → List ℕ → Option ℕ
digits_from n [] = some n
digits_from n (c ∷ cs) = if between 48 57 c then digits_from (10 * n + (c - 48)) cs else none

abbrev pub digits : List ℕ → Option ℕ
digits [] = none
digits (c ∷ cs) = digits_from 0 (c ∷ cs)

-- 2 ^ 63
abbrev pub int_bound : ℕ
int_bound = 9_223_372_036_854_775_808

abbrev pub atoi_pos : Option ℕ → Atoi
atoi_pos none = record { value = pos 0; numeric = false }
atoi_pos (some n) =
    if ltb n int_bound
    then record { value = pos n; numeric = true }
    else record { value = pos (int_bound - 1); numeric = false }

abbrev pub atoi_neg : Option ℕ → Atoi
atoi_neg none = record { value = pos 0; numeric = false }
atoi_neg (some n) =
    if leb n int_bound
    then record { value = negate n; numeric = true }
    else record { value = negate int_bound; numeric = false }

unfoldable pub atoi : List ℕ → Atoi
atoi [] = atoi_pos none
atoi (c ∷ cs) =
    if c == b'-'
    then atoi_neg (digits cs)
    else if c == b'+'
    then atoi_pos (digits cs)
    else atoi_pos (digits (c ∷ cs))

-- The parts before and after the first `b`; all of the text and nothing where there is none.
abbrev pub before : ℕ → List ℕ → List ℕ
before b [] = []
before b (c ∷ cs) = if c == b then [] else c ∷ before b cs

abbrev pub after : ℕ → List ℕ → List ℕ
after b [] = []
after b (c ∷ cs) = if c == b then cs else after b cs

abbrev pub cons_part : ℕ → List (List ℕ) → List (List ℕ)
cons_part c [] = (c ∷ []) ∷ []
cons_part c (p ∷ ps) = (c ∷ p) ∷ ps

-- `strings.Split(s, ".")`
abbrev pub split_dots : List ℕ → List (List ℕ)
split_dots [] = [] ∷ []
split_dots (c ∷ cs) = if c == b'.' then [] ∷ split_dots cs else cons_part c (split_dots cs)

-- The first three parts of `strings.SplitN(core, ".", 3)`: the third has the rest.
pub record Core : Type 0 where
  pub major : ℤ
  pub minor : ℤ
  pub patch : ℤ
  pub pre : List ℕ

abbrev pub trim_v : List ℕ → List ℕ
trim_v [] = []
trim_v (c ∷ cs) = if c == b'v' then cs else c ∷ cs

unfoldable pub part_value : List ℕ → ℤ
unfolding trim_bytes atoi
part_value p = (atoi (trim_bytes p)).value

unfoldable pub split_version : List ℕ → Core
unfolding trim_bytes part_value
split_version text =
    let v = trim_v (trim_bytes text) in
    let core = before b'+' (before b'-' v) in
    let rest = after b'.' core in
    record {
      major = part_value (before b'.' core);
      minor = part_value (before b'.' rest);
      patch = part_value (after b'.' rest);
      pre = before b'+' (after b'-' v);
    }

-- `strings.Compare`
abbrev pub compare_text : List ℕ → List ℕ → Sign
compare_text = compare_lists compare_nat

abbrev pub compare_numbers : Atoi → Atoi → List ℕ → List ℕ → Sign
compare_numbers m n a b =
    if m.numeric && n.numeric
    then compare_int m.value n.value
    else if m.numeric
    then less
    else if n.numeric
    then more
    else compare_text a b

unfoldable pub compare_identifier : List ℕ → List ℕ → Sign
unfolding atoi
compare_identifier a b = compare_numbers (atoi a) (atoi b) a b

abbrev pub is_empty : List ℕ → Bool
is_empty [] = true
is_empty (c ∷ cs) = false

unfoldable pub compare_prerelease : List ℕ → List ℕ → Sign
unfolding compare_identifier
compare_prerelease a b =
    if same_text a b
    then same
    else if is_empty a
    then more
    else if is_empty b
    then less
    else compare_lists compare_identifier (split_dots a) (split_dots b)

abbrev pub compare_cores : Core → Core → Sign
compare_cores c d = or_else (compare_int c.major d.major) (
    or_else (compare_int c.minor d.minor)
      (or_else (compare_int c.patch d.patch) (compare_prerelease c.pre d.pre)))

unfoldable pub compare_semver : List ℕ → List ℕ → Sign
unfolding split_version compare_prerelease
compare_semver a b = compare_cores (split_version a) (split_version b)
