-- ===== src/Sessions/Branch/Walk.antt =====
-- internal/sessions/session.go: where the walk back to the root ends, and what it collects.
use pican.Base.{
  ℕ, zero, suc, ◌<◌, ◌≡◌, ◌≢◌, refl, ◌∙◌, sym, ◌⊎◌, inl, inr, false, List, [], ◌∷◌, Option, none,
  some, arith, String, str_eq, Bool-cases, Option-cases, str_eq_iff,
}
use pican.Base.Assoc.{lookup}
use pican.Sessions.Json.{Fields, text_of}
use pican.Sessions.Branch.{walk, with_entry}

-- The walk from `current` goes on: its entry is there and has another entry's identity as its
-- parent.
abbrev pub GoesOn : List (String × Fields) → String → String → Type 0
GoesOn ids current parent =
    (e : Fields) × (lookup current ids ≡ some e)
    × (text_of "parentId" e ≡ parent)
    × (current ≢ "")
    × (parent ≢ "")
    × (parent ≢ current)

-- The walk from `current` ends with the entry that it finds there, if any.
abbrev pub Ends : List (String × Fields) → String → List Fields → Type 0
Ends ids current es =
    ((current ≡ "") × (es ≡ []))
    ⊎ ((lookup current ids ≡ none) × (es ≡ []))
    ⊎ ((e : Fields) × (lookup current ids ≡ some e)
        × ((text_of "parentId" e ≡ "") ⊎ (text_of "parentId" e ≡ current))
        × (es ≡ e ∷ []))

differ : {s t : String} → str_eq s t ≡ false → s ≢ t
differ {s} {t} h e = cc ((str_eq_iff s t).1 e, h)

-- One round of the loop, whatever its fuel.
pub walk_cases :
    (ids : List (String × Fields)) (current : String)
    → ((es : List Fields) × Ends ids current es
        × ((fuel : ℕ) → walk (suc fuel) ids current ≡ some es))
      ⊎ ((parent : String) × (e : Fields) × GoesOn ids current parent
          × (lookup current ids ≡ some e)
          × ((fuel : ℕ) → walk (suc fuel) ids current ≡ with_entry e (walk fuel ids parent)))
unfolding walk
walk_cases ids current = elim (Bool-cases (str_eq current "")) [
  | inl e ↦ inl ([], inl ((str_eq_iff current "").0 e, refl), λ fuel. rw e refl)
  | inr there ↦ elim (Option-cases (lookup current ids)) [
    | inl missing ↦ inl ([], inr (inl (missing, refl)), λ fuel. rw (there, missing) refl)
    | inr (e, found) ↦ elim (Bool-cases (str_eq (text_of "parentId" e) "")) [
      | inl root ↦ inl (
        e ∷ [],
        inr (inr (e, found, inl ((str_eq_iff (text_of "parentId" e) "").0 root), refl)),
        λ fuel. rw (there, found, root) refl,
      )
      | inr child ↦ elim (Bool-cases (str_eq (text_of "parentId" e) current)) [
        | inl self ↦ inl (
          e ∷ [],
          inr (inr (e, found, inr ((str_eq_iff (text_of "parentId" e) current).0 self), refl)),
          λ fuel. rw (there, found, child, self) refl,
        )
        | inr other ↦ inr (
          text_of "parentId" e,
          e,
          (e, found, refl, differ there, differ child, differ other),
          found,
          λ fuel. rw (there, found, child, other) refl,
        )
      ]
    ]
  ]
]

-- The entries from an entry back to its root, by the `parentId` of each: the root names no parent
-- or itself, or a parent that the file has not.
pub data Branch (ids : List (String × Fields)) : String → List Fields → Type 0 where
  ends : {current : String} {es : List Fields} → Ends ids current es → Branch ids current es
  goes :
      {current parent : String} {e : Fields} {es : List Fields}
      → GoesOn ids current parent
      → lookup current ids ≡ some e
      → Branch ids parent es
      → Branch ids current (e ∷ es)

inner :
    (e : Fields) (r : Option (List Fields)) (es : List Fields)
    → with_entry e r ≡ some es
    → (rest : List Fields) × (r ≡ some rest) × (e ∷ rest ≡ es)
inner e none es h = cc
inner e (some rest) es h = (rest, refl, cc)

pub walk-Branch :
    (ids : List (String × Fields)) (fuel : ℕ) (current : String) (es : List Fields)
    → walk fuel ids current ≡ some es
    → Branch ids current es
unfolding walk
walk-Branch ids zero current es h = cc
walk-Branch ids (suc fuel) current es h = elim (walk_cases ids current) [
  | inl (found, end, same) ↦ let e : found ≡ es = cc (same fuel, h) in Branch.ends (rw e at end)
  | inr (parent, e, goes_on, at, same) ↦
      let (rest, r, whole) = inner e (walk fuel ids parent) es (sym (same fuel) ∙ h) in
      rw (← whole) (Branch.goes goes_on at (walk-Branch ids fuel parent rest r))
]

-- Where the parents lead to ever smaller ranks, the walk ends on a fuel above the rank.
pub walk_ends :
    (ids : List (String × Fields)) (rank : String → ℕ)
    → ((current parent : String) → GoesOn ids current parent → rank parent < rank current)
    → (fuel : ℕ) (current : String) → rank current < fuel
    → (es : List Fields) × (walk fuel ids current ≡ some es)
walk_ends ids rank falls zero current h = absurd (omega arith)
walk_ends ids rank falls (suc fuel) current h = elim (walk_cases ids current) [
  | inl (es, end, same) ↦ (es, same fuel)
  | inr (parent, e, goes_on, at, same) ↦
      let (es, r) =
        walk_ends ids rank falls fuel parent (omega (arith, falls current parent goes_on)) in
      (e ∷ es, rw (same fuel, r) refl)
]

goes_once :
    (ids : List (String × Fields)) (current p q : String)
    → GoesOn ids current p
    → GoesOn ids current q
    → p ≡ q
goes_once ids current p q (e, a, b, _, _, _) (f, c, d, _, _, _) = let same : e ≡ f = cc in cc

stuck :
    (ids : List (String × Fields)) (current parent : String) (es : List Fields)
    → GoesOn ids current parent
    → ¬ Ends ids current es
stuck ids current parent es (e, a, b, c, d, f) (inl (g, _)) = c g
stuck ids current parent es (e, a, b, c, d, f) (inr (inl (g, _))) = cc
stuck ids current parent es (e, a, b, c, d, f) (inr (inr (e', g, inl h, _))) =
    let same : e ≡ e' = cc in d cc
stuck ids current parent es (e, a, b, c, d, f) (inr (inr (e', g, inr h, _))) =
    let same : e ≡ e' = cc in f cc

-- From an entry on a cycle of parents the walk does not end: on no number of rounds.
pub walk_cycles :
    (ids : List (String × Fields)) (OnCycle : String → Type 0)
    → ((current : String)
        → OnCycle current
        → (parent : String) × GoesOn ids current parent × OnCycle parent)
    → (fuel : ℕ) (current : String) → OnCycle current
    → walk fuel ids current ≡ none
unfolding walk
walk_cycles ids OnCycle turns zero current h = refl
walk_cycles ids OnCycle turns (suc fuel) current h =
    let (parent, goes_on, still) = turns current h in
    elim (walk_cases ids current) [
      | inl (es, end, same) ↦ absurd (stuck ids current parent es goes_on end)
      | inr (parent', e, goes_on', at, same) ↦
          let back : walk fuel ids parent' ≡ none =
            rw (goes_once ids current parent' parent goes_on' goes_on)
              (walk_cycles ids OnCycle turns fuel parent still) in
          same fuel ∙ rw back refl
    ]
