-- ===== src/BasePath.antt =====
-- internal/basepath/basepath.go: the mount prefix, on bytes. A request is its path, and what the
-- handler passes on is the path that the inner handler gets, or nothing for a 404.
pub mod Mount
pub mod Parse
mod Tests
use pican.Base.{
  ℕ, Bool, true, false, not, ◌&&◌, ◌||◌, List, [], ◌∷◌, ◌++◌, reverse, Option, none, some, Result,
  ok, err, ◌==◌, if◌then◌else◌, drop, length,
}
use pican.Base.Text.{codes, contains, has_prefix, same}
use pican.Sessions.Bytes.{trim_bytes}

pub record MountPath : Type 0 where
  pub value : List ℕ

pub data ParseError : Type 0 where
  no_slash : ParseError
  has_query : ParseError
  not_normalized : ParseError

abbrev pub is_empty : List ℕ → Bool
is_empty [] = true
is_empty (b ∷ bs) = false

-- `strings.Split(s, "/")`
abbrev pub push_byte : ℕ → List (List ℕ) → List (List ℕ)
push_byte b [] = (b ∷ []) ∷ []
push_byte b (p ∷ ps) = (b ∷ p) ∷ ps

abbrev pub split_slashes : List ℕ → List (List ℕ)
split_slashes [] = [] ∷ []
split_slashes (b ∷ bs) = if b == b'/' then [] ∷ split_slashes bs else push_byte b (split_slashes bs)

-- `strings.Join(parts, "/")`
abbrev pub join_slashes : List (List ℕ) → List ℕ
join_slashes [] = []
join_slashes (p ∷ []) = p
join_slashes (p ∷ q ∷ ps) = p ++ b'/' ∷ join_slashes (q ∷ ps)

-- The parts of a path without the empty ones and ".", and with ".." taken back, the last first.
abbrev pub take_back : Bool → List (List ℕ) → List (List ℕ)
take_back rooted [] = if rooted then [] else codes ".." ∷ []
take_back rooted (p ∷ ps) = if same p (codes "..") then codes ".." ∷ p ∷ ps else ps

abbrev pub add_part : Bool → List (List ℕ) → List ℕ → List (List ℕ)
add_part rooted done p =
    if is_empty p || same p (codes ".")
    then done
    else if same p (codes "..")
    then take_back rooted done
    else p ∷ done

abbrev pub resolve_parts : Bool → List (List ℕ) → List (List ℕ) → List (List ℕ)
resolve_parts rooted done [] = done
resolve_parts rooted done (p ∷ ps) = resolve_parts rooted (add_part rooted done p) ps

-- `path.Clean`
unfoldable pub clean : List ℕ → List ℕ
clean path =
    let rooted = has_prefix (codes "/") path in
    let parts = join_slashes (reverse (resolve_parts rooted [] (split_slashes path))) in
    if rooted then b'/' ∷ parts else if is_empty parts then codes "." else parts

-- `strings.TrimSuffix(s, "/")`
abbrev pub trim_slash : List ℕ → List ℕ
trim_slash [] = []
trim_slash (b ∷ []) = if b == b'/' then [] else b ∷ []
trim_slash (b ∷ c ∷ cs) = b ∷ trim_slash (c ∷ cs)

-- `Parse` of the text without the space around it.
unfoldable pub parse_trimmed : List ℕ → Result ParseError MountPath
parse_trimmed raw =
    if is_empty raw || same raw (codes "/")
    then ok (record { value = [] })
    else if not (has_prefix (codes "/") raw)
    then err no_slash
    else if contains b'?' raw || contains b'#' raw
    then err has_query
    else if same (clean raw) (codes ".") || same (clean raw) (codes "/")
    then ok (record { value = [] })
    else if not (same (clean raw) raw) && not (same (trim_slash raw) (clean raw))
    then err not_normalized
    else ok (record { value = clean raw })

unfoldable pub parse : List ℕ → Result ParseError MountPath
unfolding trim_bytes parse_trimmed
parse raw = parse_trimmed (trim_bytes raw)

-- `route == p.value || strings.HasPrefix(route, p.value+"/")`
abbrev pub is_under : MountPath → List ℕ → Bool
is_under p path = same path p.value || has_prefix (p.value ++ b'/' ∷ []) path

abbrev pub or_root : List ℕ → List ℕ
or_root path = if is_empty path then codes "/" else path

unfoldable pub url : MountPath → List ℕ → List ℕ
url p route =
    let rooted = or_root route in
    if not (has_prefix (codes "/") rooted)
    then rooted
    else if is_empty p.value || is_under p rooted
    then rooted
    else p.value ++ rooted

unfoldable pub handler : MountPath → List ℕ → Option (List ℕ)
handler p path =
    if is_empty p.value
    then some path
    else if not (is_under p path)
    then none
    else some (or_root (if has_prefix p.value path then drop (length p.value) path else path))
