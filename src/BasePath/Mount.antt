-- ===== src/BasePath/Mount.antt =====
-- internal/basepath/basepath.go: what a mount serves, and its addresses.
use pican.Base.{
  ℕ, ◌≡◌, ◌≢◌, refl, ◌∙◌, sym, ap, subst, ◌⊎◌, inl, inr, Bool, true, false, not, ◌&&◌, ◌||◌, List,
  [], ◌∷◌, ◌++◌, append_assoc, append-nil, Option, none, some, ◌==◌, drop, length, arith,
  Bool-cases,
}
use pican.Base.Text.{codes, has_prefix, same, same_iff}
use pican.BasePath.{MountPath, is_empty, is_under, or_root, url, handler}

has_prefix-append : (ps cs : List ℕ) → has_prefix ps (ps ++ cs) ≡ true
has_prefix-append [] cs = refl
has_prefix-append (p ∷ ps) cs = rw (has_prefix-append ps cs) (ground arith)

drop-length : (ps cs : List ℕ) → drop (length ps) (ps ++ cs) ≡ cs
drop-length [] cs = refl
drop-length (p ∷ ps) cs = drop-length ps cs

both : (a b : Bool) → (a && b) ≡ true → (a ≡ true) × (b ≡ true)
both true b h = (refl, h)
both false b h = cc

second : (a b : Bool) → (a || b) ≡ true → a ≡ false → b ≡ true
second true b h k = cc
second false b h k = h

prefix-split : (ps cs : List ℕ) → has_prefix ps cs ≡ true → (rest : List ℕ) × (cs ≡ ps ++ rest)
prefix-split [] cs h = (cs, refl)
prefix-split (p ∷ ps) [] h = cc
prefix-split (p ∷ ps) (c ∷ cs) h =
    let (a, b) = both (c == p) (has_prefix ps cs) h in
    let e : c ≡ p = ground arith in let (rest, is) = prefix-split ps cs b in (rest, rw (e, is) refl)

-- A path under a mount is the mount, or the mount with a slash and more.
under-split :
    (p : MountPath) (path : List ℕ)
    → is_under p path ≡ true
    → (path ≡ p.value) ⊎ ((rest : List ℕ) × (path ≡ p.value ++ b'/' ∷ rest))
under-split p path h = elim (Bool-cases (same path p.value)) [
  | inl e ↦ inl ((same_iff path p.value).0 e)
  | inr e ↦
      let (rest, is) =
        prefix-split (p.value ++ b'/' ∷ []) path (second (same path p.value) _ h e) in
      inr (rest, is ∙ append_assoc p.value (b'/' ∷ []) rest)
]

under-rest : (p : MountPath) (rest : List ℕ) → is_under p (p.value ++ b'/' ∷ rest) ≡ true
under-rest p rest =
    let there : has_prefix (p.value ++ b'/' ∷ []) (p.value ++ b'/' ∷ rest) ≡ true =
      subst (λ path. has_prefix (p.value ++ b'/' ∷ []) path ≡ true)
        (append_assoc p.value (b'/' ∷ []) rest) (has_prefix-append (p.value ++ b'/' ∷ []) rest) in
    rw there (or-true (same (p.value ++ b'/' ∷ rest) p.value))
  where
    or-true : (a : Bool) → (a || true) ≡ true
    or-true true = refl
    or-true false = refl

under_self : (p : MountPath) → is_under p p.value ≡ true
under_self p = rw ((same_iff p.value p.value).1 refl) refl

-- What is under the mount loses it.
handler-rest :
    (p : MountPath) (rest : List ℕ)
    → is_empty p.value ≡ false
    → is_under p (p.value ++ rest) ≡ true
    → handler p (p.value ++ rest) ≡ some (or_root rest)
unfolding handler
handler-rest p rest h under =
    rw (h, under, has_prefix-append p.value rest, drop-length p.value rest) refl

-- What the inner handler gets for a path: nothing where the path is outside the mount; "/" for the
-- mount itself; and what stands after the mount, from its slash on.
abbrev pub Serves : MountPath → List ℕ → Option (List ℕ) → Type 0
Serves p path none = (path ≢ p.value) × ((rest : List ℕ) → path ≢ p.value ++ b'/' ∷ rest)
Serves p path (some inner) =
    ((path ≡ p.value) × (inner ≡ codes "/"))
    ⊎ ((rest : List ℕ) × (path ≡ p.value ++ b'/' ∷ rest) × (inner ≡ b'/' ∷ rest))

Serves-under :
    (p : MountPath) (path : List ℕ)
    → is_empty p.value ≡ false
    → (path ≡ p.value) ⊎ ((rest : List ℕ) × (path ≡ p.value ++ b'/' ∷ rest))
    → Serves p path (handler p path)
Serves-under p path h (inl e) =
    let answer : handler p path ≡ some (codes "/") =
      ap (handler p) (e ∙ sym (append-nil p.value))
      ∙ handler-rest p [] h
          (subst (λ t. is_under p t ≡ true) (sym (append-nil p.value)) (under_self p)) in
    subst (Serves p path) (sym answer) (inl (e, refl))
Serves-under p path h (inr (rest, e)) =
    let answer : handler p path ≡ some (b'/' ∷ rest) =
      ap (handler p) e ∙ handler-rest p (b'/' ∷ rest) h (under-rest p rest) in
    subst (Serves p path) (sym answer) (inr (rest, e, refl))

outside :
    (p : MountPath) (path : List ℕ)
    → is_empty p.value ≡ false
    → is_under p path ≡ false
    → handler p path ≡ none
unfolding handler
outside p path h e = rw (h, e) refl

-- Under a mount that is not the root, the inner handler gets "/" for the mount itself and, for a
-- path that goes on with a slash, what stands after the mount from that slash on; every other path
-- is answered by a 404.
pub handler-Serves :
    (p : MountPath) (path : List ℕ) → is_empty p.value ≡ false → Serves p path (handler p path)
handler-Serves p path h = elim (Bool-cases (is_under p path)) [
  | inl e ↦ Serves-under p path h (under-split p path e)
  | inr e ↦ subst (Serves p path) (sym (outside p path h e)) (
    λ a. absurd (true-false (sym (subst (λ t. is_under p t ≡ true) (sym a) (under_self p)) ∙ e)),
    λ rest a.
        absurd
          (true-false (sym (subst (λ t. is_under p t ≡ true) (sym a) (under-rest p rest)) ∙ e)),
  )
]
  where
    true-false : true ≢ false
    true-false h = cc

negated : (b : Bool) → not b ≡ true → b ≡ false
negated true h = cc
negated false h = refl

url-prefixed :
    (p : MountPath) (route : List ℕ)
    → is_empty p.value ≡ false
    → is_under p (b'/' ∷ route) ≡ false
    → url p (b'/' ∷ route) ≡ p.value ++ b'/' ∷ route
unfolding url
url-prefixed p route e free = rw (e, free) refl

-- At the root the address of a route is the route, and it is served as it is.
at_root :
    (p : MountPath) (route : List ℕ)
    → is_empty p.value ≡ true
    → handler p (url p (b'/' ∷ route)) ≡ some (b'/' ∷ route)
unfolding handler url
at_root p route e = rw e refl

-- A route that begins with a slash and is not under the mount already, or any at the root, has an
-- address at which the inner handler gets the route itself.
pub handler-url :
    (p : MountPath) (route : List ℕ)
    → (is_empty p.value || not (is_under p (b'/' ∷ route))) ≡ true
    → handler p (url p (b'/' ∷ route)) ≡ some (b'/' ∷ route)
handler-url p route h = elim (Bool-cases (is_empty p.value)) [
  | inl e ↦ at_root p route e
  | inr e ↦
      let free : is_under p (b'/' ∷ route) ≡ false = negated _ (second (is_empty p.value) _ h e) in
      ap (handler p) (url-prefixed p route e free)
      ∙ handler-rest p (b'/' ∷ route) e (under-rest p route)
]
