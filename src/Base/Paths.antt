-- ===== src/Base/Paths.antt =====
-- Go's `path` and `filepath` on slash-separated paths, and the parts of `strings` on whole texts
-- that the program calls on them.
use Prim.Native.Char.{code}
use Prim.Native.String.{String, ◌++◌ as text_append}
use Prim.Native.Nat.{ℕ}
use mathlib.Core.Bool.{Bool, true, false, ◌&&◌, ◌||◌}
use mathlib.Core.List.{List, [], ◌∷◌, reverse}
use pican.Base.Tests.{if◌then◌else◌, ◌==◌, str_eq}

abbrev pub has_code : ℕ → String → Bool
has_code b String.[] = false
has_code b (String.◌∷◌ c s) = if code c == b then true else has_code b s

abbrev pub starts_with_code : ℕ → String → Bool
starts_with_code b String.[] = false
starts_with_code b (String.◌∷◌ c s) = code c == b

-- The part after the last slash.
unfoldable pub last_part : String → String
last_part String.[] = ""
last_part (String.◌∷◌ c s) =
    let after = last_part s in if code c == 47 || has_code 47 s then after else String.◌∷◌ c s

unfoldable pub strip_slashes_right : String → String
strip_slashes_right String.[] = ""
strip_slashes_right (String.◌∷◌ c s) =
    let rest = strip_slashes_right s in
    if code c == 47 && str_eq rest "" then "" else String.◌∷◌ c rest

-- `filepath.Base`
unfoldable pub base_name : String → String
unfolding last_part strip_slashes_right
base_name p =
    let stripped = strip_slashes_right p in
    if str_eq p "" then "." else if str_eq stripped "" then "/" else last_part stripped

-- `filepath.Ext`
unfoldable pub last_dot : String → String
last_dot String.[] = ""
last_dot (String.◌∷◌ c s) =
    let after = last_dot s in
    if has_code 46 s then after else if code c == 46 then String.◌∷◌ c s else ""

unfoldable pub ext : String → String
unfolding last_part last_dot
ext p = last_dot (last_part p)

-- `strings.Split(s, "/")`
abbrev pub push_char : Prim.Native.Char.Char → List String → List String
push_char c [] = String.◌∷◌ c "" ∷ []
push_char c (p ∷ ps) = String.◌∷◌ c p ∷ ps

unfoldable pub split_slashes : String → List String
split_slashes String.[] = "" ∷ []
split_slashes (String.◌∷◌ c s) =
    let rest = split_slashes s in if code c == 47 then "" ∷ rest else push_char c rest

-- `strings.Join(parts, "/")`
abbrev pub join_slashes : List String → String
join_slashes [] = ""
join_slashes (p ∷ []) = p
join_slashes (p ∷ q ∷ ps) = text_append p (text_append "/" (join_slashes (q ∷ ps)))

-- The parts of a path without the empty ones and ".", and with ".." taken back, the last first.
abbrev pub take_back : Bool → List String → List String
take_back rooted [] = if rooted then [] else ".." ∷ []
take_back rooted (p ∷ ps) = if str_eq p ".." then ".." ∷ p ∷ ps else ps

unfoldable pub resolve_parts : Bool → List String → List String → List String
resolve_parts rooted done [] = done
resolve_parts rooted done (p ∷ ps) =
    resolve_parts rooted
      (if str_eq p "" || str_eq p "."
        then done
        else if str_eq p ".."
        then take_back rooted done
        else p ∷ done)
      ps

-- `path.Clean`
unfoldable pub clean : String → String
unfolding split_slashes resolve_parts
clean p =
    let rooted = starts_with_code 47 p in
    let parts = join_slashes (reverse (resolve_parts rooted [] (split_slashes p))) in
    if rooted then text_append "/" parts else if str_eq parts "" then "." else parts

-- `filepath.Join` of a directory and a name, neither of them empty.
unfoldable pub join : String → String → String
unfolding clean
join dir name = clean (text_append dir (text_append "/" name))
