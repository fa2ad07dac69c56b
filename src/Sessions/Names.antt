-- ===== src/Sessions/Names.antt =====
-- internal/sessions/session.go: the name of a project's directory, encoded from its path and
-- decoded again. Texts are their bytes in UTF-8.
pub mod RoundTrip
use pican.Base.{
  ℕ, Bool, true, false, ◌&&◌, ◌||◌, List, [], ◌∷◌, ◌++◌, reverse, Option, none, some, ◌==◌,
  if◌then◌else◌,
}
use pican.Base.Text.{between, contains}
use pican.Sessions.Bytes.{trim_bytes}

abbrev pub slash : ℕ
slash = 47

abbrev pub backslash : ℕ
backslash = 92

abbrev pub colon : ℕ
colon = 58

abbrev pub dash : ℕ
dash = 45

abbrev pub underscore : ℕ
underscore = 95

-- `strings.ReplaceAll` of one byte, and of two.
abbrev pub replace_one : ℕ → List ℕ → List ℕ → List ℕ
replace_one old new [] = []
replace_one old new (c ∷ cs) =
    if c == old then new ++ replace_one old new cs else c ∷ replace_one old new cs

unfoldable pub replace_two : ℕ → ℕ → ℕ → List ℕ → List ℕ
replace_two a b new [] = []
replace_two a b new (c ∷ []) = c ∷ []
replace_two a b new (c ∷ d ∷ ds) =
    let past = replace_two a b new ds in
    let next = replace_two a b new (d ∷ ds) in if c == a && d == b then new ∷ past else c ∷ next

abbrev pub trim_slashes_left : List ℕ → List ℕ
trim_slashes_left [] = []
trim_slashes_left (c ∷ cs) = if c == slash then trim_slashes_left cs else c ∷ cs

-- `strings.Trim(s, "/")`
abbrev pub trim_slashes : List ℕ → List ℕ
trim_slashes s = reverse (trim_slashes_left (reverse (trim_slashes_left s)))

-- `strings.TrimPrefix(s, "--")`
abbrev pub trim_dashes : List ℕ → List ℕ
trim_dashes [] = []
trim_dashes (a ∷ []) = a ∷ []
trim_dashes (a ∷ b ∷ cs) = if a == dash && b == dash then cs else a ∷ b ∷ cs

-- `strings.TrimSuffix(s, "--")` after it.
abbrev pub unwrap : List ℕ → List ℕ
unwrap s = reverse (trim_dashes (reverse (trim_dashes s)))

abbrev pub wrap : List ℕ → List ℕ
wrap s = dash ∷ dash ∷ (s ++ dash ∷ dash ∷ [])

abbrev pub is_letter : ℕ → Bool
is_letter c = between 65 90 c || between 97 122 c

abbrev pub is_drive : List ℕ → Bool
is_drive [] = false
is_drive (a ∷ []) = false
is_drive (a ∷ b ∷ cs) = b == colon && is_letter a

abbrev pub is_windows_path : List ℕ → Bool
is_windows_path path = if is_drive path then true else contains backslash path

abbrev pub strip_separator : List ℕ → List ℕ
strip_separator [] = []
strip_separator (c ∷ cs) = if c == slash || c == backslash then cs else c ∷ cs

-- `strings.NewReplacer("/", "-", "\", "-", ":", "-")`
abbrev pub dash_separators : List ℕ → List ℕ
dash_separators [] = []
dash_separators (c ∷ cs) =
    (if c == slash || c == backslash || c == colon then dash else c) ∷ dash_separators cs

abbrev pub escape : List ℕ → List ℕ
escape s =
    replace_one slash (underscore ∷ dash ∷ [])
      (replace_one underscore (underscore ∷ underscore ∷ []) s)

unfoldable pub encode_project_name : List ℕ → List ℕ
unfolding trim_bytes
encode_project_name path =
    let s = trim_bytes path in
    if is_windows_path s
    then wrap (dash_separators (strip_separator s))
    else wrap (escape (trim_slashes s))

unfoldable pub decode_project_body : List ℕ → List ℕ
unfolding replace_two
decode_project_body s =
    if contains underscore s
    then replace_two underscore underscore underscore (replace_two underscore dash slash s)
    else replace_one dash (slash ∷ []) s

-- A letter and two dashes.
abbrev pub is_dashed_drive : List ℕ → Bool
is_dashed_drive [] = false
is_dashed_drive (a ∷ []) = false
is_dashed_drive (a ∷ b ∷ []) = false
is_dashed_drive (a ∷ b ∷ c ∷ cs) = b == dash && c == dash && is_letter a

abbrev pub decoded_drive : List ℕ → List ℕ
decoded_drive [] = []
decoded_drive (a ∷ []) = []
decoded_drive (a ∷ b ∷ []) = []
decoded_drive (a ∷ b ∷ c ∷ cs) = a ∷ colon ∷ backslash ∷ replace_one dash (backslash ∷ []) cs

abbrev pub decode_windows_body : List ℕ → Option (List ℕ)
decode_windows_body s = if is_dashed_drive s then some (decoded_drive s) else none

abbrev pub or_body : Option (List ℕ) → List ℕ → List ℕ
or_body none s = s
or_body (some win) s = win

unfoldable pub clean_project_name : List ℕ → List ℕ
unfolding decode_project_body
clean_project_name dir_name =
    let s = unwrap dir_name in or_body (decode_windows_body s) (decode_project_body s)

abbrev pub rooted : List ℕ → List ℕ
rooted [] = []
rooted (c ∷ cs) = if c == slash then c ∷ cs else slash ∷ c ∷ cs

unfoldable pub decode_project_name : List ℕ → List ℕ
unfolding decode_project_body
decode_project_name dir_name =
    let s = unwrap dir_name in or_body (decode_windows_body s) (rooted (decode_project_body s))
