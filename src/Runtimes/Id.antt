-- ===== src/Runtimes/Id.antt =====
-- `ParseID` of internal/runtimes/registry.go.
use pican.Base.{
  ℕ, sym, subst, ◌∙◌, ◌≡◌, refl, ◌↔◌, ◌⊎◌, inl, inr, String, Bool, true, false, not, ◌&&◌, ◌||◌,
  List, [], ◌∷◌, arith, if◌then◌else◌, ◌==◌, Bool-cases, Option, none, some,
}
use pican.Base.Text.{codes, between}

unfoldable pub is_lower_letter : ℕ → Bool
is_lower_letter = between b'a' b'z'

-- The characters that the loop lets pass.
unfoldable pub is_id_char : ℕ → Bool
unfolding is_lower_letter
is_id_char c = is_lower_letter c || between b'0' b'9' c || c == b'-'

abbrev pub all_id_chars : List ℕ → Bool
all_id_chars [] = true
all_id_chars (c ∷ cs) = is_id_char c && all_id_chars cs

abbrev pub ends_with_dash : List ℕ → Bool
ends_with_dash [] = false
ends_with_dash (c ∷ []) = c == b'-'
ends_with_dash (c ∷ d ∷ cs) = ends_with_dash (d ∷ cs)

-- `strings.Contains(value, "--")`
abbrev pub has_double_dash : List ℕ → Bool
has_double_dash [] = false
has_double_dash (c ∷ []) = false
has_double_dash (c ∷ d ∷ cs) = (c == b'-' && d == b'-') || has_double_dash (d ∷ cs)

unfoldable pub is_valid_id : List ℕ → Bool
unfolding is_id_char
is_valid_id [] = false
is_valid_id (c ∷ cs) =
    is_lower_letter c
    && (all_id_chars cs && not (ends_with_dash (c ∷ cs) || has_double_dash (c ∷ cs)))

-- The id, or none for `ErrInvalidID`.
unfoldable pub parse_id : String → Option String
unfolding is_valid_id
parse_id value = if is_valid_id (codes value) then some value else none

abbrev is_word_char : ℕ → Bool
is_word_char c = between b'a' b'z' c || between b'0' b'9' c

-- The grammar of ids: words of lower-case letters and digits, joined by single dashes, the first
-- beginning with a letter.
pub data Rest : List ℕ → Type 0 where
  end : Rest []
  word : {c : ℕ} {cs : List ℕ} → is_word_char c ≡ true → Rest cs → Rest (c ∷ cs)
  dash : {c d : ℕ} {cs : List ℕ} → c ≡ b'-' → is_word_char d ≡ true → Rest cs → Rest (c ∷ d ∷ cs)

abbrev pub IsId : List ℕ → Type 0
IsId [] = ⊥
IsId (c ∷ cs) = (between b'a' b'z' c ≡ true) × Rest cs

-- The loop's tests, for what follows a character other than a dash.
abbrev passes : List ℕ → Bool
passes cs = all_id_chars cs && not (ends_with_dash cs || has_double_dash cs)

-- What the tests on dashes say after a character other than a dash.
word-clean :
    (c : ℕ) (cs : List ℕ)
    → (c == b'-') ≡ false
    → (ends_with_dash (c ∷ cs) ≡ ends_with_dash cs)
      × (has_double_dash (c ∷ cs) ≡ has_double_dash cs)
word-clean c [] h = (h, refl)
word-clean c (d ∷ cs) h = (refl, rw h refl)

is_word_char-cases : (c : ℕ) → is_word_char c ≡ true → (is_id_char c ≡ true) × ((c == b'-') ≡ false)
unfolding is_id_char
is_word_char-cases c h = (ground arith, ground arith)

passes-word : (c : ℕ) (cs : List ℕ) → is_word_char c ≡ true → passes (c ∷ cs) ≡ passes cs
passes-word c cs h =
    let (a, b) = is_word_char-cases c h in let (e, f) = word-clean c cs b in rw (a, e, f) refl

dash-passes : is_id_char b'-' ≡ true
unfolding is_id_char
dash-passes = refl

passes-dash :
    (d : ℕ) (cs : List ℕ) → is_word_char d ≡ true → passes (b'-' ∷ d ∷ cs) ≡ passes (d ∷ cs)
passes-dash d cs h = let (a, b) = is_word_char-cases d h in rw (dash-passes, a, b) refl

Rest-passes : {cs : List ℕ} → Rest cs → passes cs ≡ true
Rest-passes end = refl
Rest-passes (word {c} {cs} w r) = passes-word c cs w ∙ Rest-passes r
Rest-passes (dash {c} {d} {cs} e w r) =
    rw e (passes-dash d cs w ∙ (passes-word d cs w ∙ Rest-passes r))

-- A character passes as a part of a word, or is a dash.
is_id_char-cases : (c : ℕ) → is_id_char c ≡ true → (is_word_char c ≡ true) ⊎ (c ≡ b'-')
unfolding is_id_char
is_id_char-cases c h = ground arith

and-true : (a b : Bool) → (a && b) ≡ true → (a ≡ true) × (b ≡ true)
and-true true true h = (refl, refl)
and-true true false h = cc
and-true false b h = cc

not-or : (a b : Bool) → not (a || b) ≡ true → b ≡ false
not-or true b h = cc
not-or false b h = ground arith

passes-head : (c : ℕ) (cs : List ℕ) → passes (c ∷ cs) ≡ true → is_id_char c ≡ true
passes-head c cs h = let (a, b) = and-true _ _ h in (and-true _ _ a).0

no_double_dash : (cs : List ℕ) → passes (b'-' ∷ b'-' ∷ cs) ≡ true → ⊥
no_double_dash cs h =
    let (a, b) = and-true _ _ h in
    let e = not-or (ends_with_dash (b'-' ∷ b'-' ∷ cs)) (has_double_dash (b'-' ∷ b'-' ∷ cs)) b in cc

-- After a dash a word character comes first.
after_dash : (d : ℕ) (cs : List ℕ) → passes (b'-' ∷ d ∷ cs) ≡ true → is_word_char d ≡ true
after_dash d cs h =
    let (a, b) = and-true _ _ h in
    let (p, q) = and-true _ _ a in
    elim (is_id_char-cases d (and-true _ _ q).0) [
      | inl w ↦ w
      | inr e ↦ absurd (no_double_dash cs (subst (λ x. passes (b'-' ∷ x ∷ cs) ≡ true) e h))
    ]

no_lone_dash : passes (b'-' ∷ []) ≡ true → ⊥
unfolding is_id_char
no_lone_dash h = cc

passes-Rest : (cs : List ℕ) → passes cs ≡ true → Rest cs
passes-Rest [] h = end
passes-Rest (c ∷ []) h = elim (is_id_char-cases c (passes-head c [] h)) [
  | inl w ↦ word w end
  | inr e ↦ absurd (no_lone_dash (subst (λ x. passes (x ∷ []) ≡ true) e h))
]
passes-Rest (c ∷ d ∷ cs) h = elim (is_id_char-cases c (passes-head c (d ∷ cs) h)) [
  | inl w ↦ word w (passes-Rest (d ∷ cs) (sym (passes-word c (d ∷ cs) w) ∙ h))
  | inr e ↦
      let p = subst (λ x. passes (x ∷ d ∷ cs) ≡ true) e h in
      let w = after_dash d cs p in
      dash e w (passes-Rest cs (sym (passes-word d cs w) ∙ (sym (passes-dash d cs w) ∙ p)))
]

letter-clean :
    (c : ℕ) (cs : List ℕ)
    → is_lower_letter c ≡ true
    → (is_word_char c ≡ true) × (is_valid_id (c ∷ cs) ≡ passes cs)
unfolding is_valid_id is_lower_letter
letter-clean c cs h =
    let w : is_word_char c ≡ true = ground arith in
    let (a, b) = is_word_char-cases c w in let (e, f) = word-clean c cs b in (w, rw (h, e, f) refl)

valid_iff : (cs : List ℕ) → (is_valid_id cs ≡ true) ↔ IsId cs
unfolding is_valid_id is_lower_letter
valid_iff [] = (λ h. cc, λ h. absurd h)
valid_iff (c ∷ cs) = (
  λ h.
      let (a, b) = and-true _ _ h in
      let (w, e) = letter-clean c cs a in (a, passes-Rest cs (sym e ∙ h)),
  λ h. let (w, e) = letter-clean c cs h.0 in e ∙ Rest-passes h.1,
)

-- `ParseID` accepts exactly the texts of the grammar, and returns them unchanged.
pub parse_id_iff :
    (value id : String) → (parse_id value ≡ some id) ↔ ((value ≡ id) × IsId (codes value))
unfolding parse_id
parse_id_iff value id = elim (Bool-cases (is_valid_id (codes value))) [
  | inl e ↦ rw e (λ h. (cc, (valid_iff (codes value)).0 e), λ h. cc)
  | inr e ↦ rw e (λ h. cc, λ h. absurd (ground (arith, (valid_iff (codes value)).1 h.1)))
]
