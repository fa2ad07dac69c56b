-- ===== src/SessionCreate/Keys.antt =====
-- `ValidateKey` of internal/sessioncreate/store.go.
use mathlib.Core.List.{reverse-cons}
use pican.Base.{
  ℕ, ◌≤◌, ◌<◌, ◌≡◌, refl, ap, ◌≢◌, String, Bool, true, false, List, [], ◌∷◌, arith, eq_iff,
  Bool-cases, inl, inr, All, any_by, length, reverse, length-append,
}
use pican.Base.Text.{codes, is_space, is_control, trim_left, trim_space, byte_len, same}
use pican.SessionCreate.{validate_key}

abbrev pub starts_with_space : List ℕ → Bool
starts_with_space [] = false
starts_with_space (c ∷ cs) = is_space c

same-eq : (xs ys : List ℕ) → same xs ys ≡ true → xs ≡ ys
same-eq [] [] h = refl
same-eq (x ∷ xs) (y ∷ ys) h = ground (arith, same-eq xs ys)
same-eq [] (y ∷ ys) h = cc
same-eq (x ∷ xs) [] h = cc

length-reverse : (xs : List ℕ) → length (reverse xs) ≡ length xs
length-reverse [] = refl
length-reverse (x ∷ xs) =
    omega
      (arith, ap length (reverse-cons x xs), length-append (reverse xs) (x ∷ []), length-reverse xs)

trim_left-le : (cs : List ℕ) → length (trim_left cs) ≤ length cs
unfolding trim_left
trim_left-le [] = omega arith
trim_left-le (c ∷ cs) = ground (arith, trim_left-le cs)

trim_left-lt : (cs : List ℕ) → starts_with_space cs ≡ true → length (trim_left cs) < length cs
unfolding trim_left
trim_left-lt [] h = cc
trim_left-lt (c ∷ cs) h = ground (arith, trim_left-le cs)

trim_left_id : (cs : List ℕ) → starts_with_space cs ≡ false → trim_left cs ≡ cs
unfolding trim_left
trim_left_id [] h = refl
trim_left_id (c ∷ cs) h = ground arith

-- What `TrimSpace` leaves alone has no space at either end.
trim_space-ends :
    (cs : List ℕ)
    → trim_space cs ≡ cs
    → (starts_with_space cs ≡ false) × (starts_with_space (reverse cs) ≡ false)
unfolding trim_space
trim_space-ends cs e =
    let size = ap length e in
    let r = length-reverse (trim_left (reverse (trim_left cs))) in
    let le = trim_left-le (reverse (trim_left cs)) in
    let l = length-reverse (trim_left cs) in
    let front : starts_with_space cs ≡ false = elim (Bool-cases (starts_with_space cs)) [
      | inr h ↦ h
      | inl h ↦ absurd (omega (arith, trim_left-lt cs h))
    ] in
    (
      front,
      elim (Bool-cases (starts_with_space (reverse cs))) [
        | inr h ↦ h
        | inl h ↦
            let shorter = trim_left-lt (reverse cs) h in
            let whole = ap (λ x. length (trim_left (reverse x))) (trim_left_id cs front) in
            absurd (omega (arith, length-reverse cs))
      ],
    )

no-control : (cs : List ℕ) → any_by is_control cs ≡ false → All (λ c. is_control c ≡ false) cs
no-control [] h = tt
no-control (c ∷ cs) h = (ground arith, no-control cs (ground arith))

-- A valid key has 1 to 200 bytes, no control character, and no space at either end.
pub validate_key_lem :
    (key : String)
    → validate_key key ≡ true
    → (key ≢ "")
      × (byte_len (codes key) ≤ 200)
      × All (λ c. is_control c ≡ false) (codes key)
      × (starts_with_space (codes key) ≡ false)
      × (starts_with_space (reverse (codes key)) ≡ false)
unfolding validate_key
validate_key_lem key h =
    let untrimmed = same-eq (trim_space (codes key)) (codes key) (ground arith) in
    let (front, back) = trim_space-ends (codes key) untrimmed in
    (
      ground (arith, eq_iff key ""),
      ground arith,
      no-control (codes key) (ground arith),
      front,
      back,
    )
