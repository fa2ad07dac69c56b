-- ===== src/Sessions/Bytes.antt =====
-- Bytes of a session file: `bytes.TrimSpace`, on text in UTF-8.
use pican.Base.{ℕ, Bool, ◌&&◌, ◌||◌, List, [], ◌∷◌, reverse, ◌==◌, if◌then◌else◌}
use pican.Base.Text.{between}

abbrev is_ascii_space : ℕ → Bool
is_ascii_space b = between 9 13 b || b == 32

-- U+0085 and U+00A0.
abbrev is_space_pair : ℕ → ℕ → Bool
is_space_pair a b = a == 0xc2 && (b == 0x85 || b == 0xa0)

-- U+1680, U+2000 to U+200A, U+2028, U+2029, U+202F, U+205F and U+3000.
abbrev is_space_triple : ℕ → ℕ → ℕ → Bool
is_space_triple a b c =
    (a == 0xe1 && b == 0x9a && c == 0x80)
    || (a == 0xe2 && b == 0x80 && (between 0x80 0x8a c || c == 0xa8 || c == 0xa9 || c == 0xaf))
    || (a == 0xe2 && b == 0x81 && c == 0x9f)
    || (a == 0xe3 && b == 0x80 && c == 0x80)

unfoldable pub trim_left : List ℕ → List ℕ
trim_left [] = []
trim_left (a ∷ []) = if is_ascii_space a then [] else a ∷ []
trim_left (a ∷ b ∷ []) =
    let one = trim_left (b ∷ []) in
    if is_ascii_space a then one else if is_space_pair a b then [] else a ∷ b ∷ []
trim_left (a ∷ b ∷ c ∷ cs) =
    let one = trim_left (b ∷ c ∷ cs) in
    let two = trim_left (c ∷ cs) in
    let three = trim_left cs in
    if is_ascii_space a
    then one
    else if is_space_pair a b
    then two
    else if is_space_triple a b c
    then three
    else a ∷ b ∷ c ∷ cs

-- The same from the end, the bytes being in reverse.
unfoldable pub trim_left_reversed : List ℕ → List ℕ
trim_left_reversed [] = []
trim_left_reversed (a ∷ []) = if is_ascii_space a then [] else a ∷ []
trim_left_reversed (b ∷ a ∷ []) =
    let one = trim_left_reversed (a ∷ []) in
    if is_ascii_space b then one else if is_space_pair a b then [] else b ∷ a ∷ []
trim_left_reversed (c ∷ b ∷ a ∷ cs) =
    let one = trim_left_reversed (b ∷ a ∷ cs) in
    let two = trim_left_reversed (a ∷ cs) in
    let three = trim_left_reversed cs in
    if is_ascii_space c
    then one
    else if is_space_pair b c
    then two
    else if is_space_triple a b c
    then three
    else c ∷ b ∷ a ∷ cs

unfoldable pub trim_bytes : List ℕ → List ℕ
unfolding trim_left trim_left_reversed
trim_bytes bs = reverse (trim_left_reversed (reverse (trim_left bs)))
