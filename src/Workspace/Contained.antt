-- ===== src/Workspace/Contained.antt =====
-- internal/workspace/containment.go: what is admitted is inside the root.
use pican.Base.{
  ℕ, ◌≡◌, refl, ◌∙◌, sym, ap, subst, ◌⊎◌, inl, inr, Bool, true, false, not, List, [], ◌∷◌, ◌++◌,
  append_assoc, append-nil, reverse, Option, none, some, Result, ok, err, if◌then◌else◌,
}
use mathlib.Core.List.{reverse-cons, reverse-reverse}
use pican.Sessions.Bytes.{trim_bytes}
use pican.Workspace.{
  Names, Presence, there, absent, unknown, Disk, Refusal, traversal, outside_root, not_there,
  no_directory, not_made, Resolver, has_traversal, strip_common, rel_of, is_below, existing_at,
  existing_linked, resolve_existing, step_up, find_ancestor, joined, creation_linked, creation_from,
  creation_at, resolve_for_creation, text_of, made, create_at, create_dir,
}
use pican.Workspace.Inside.{IsInside, rel-below, inside-IsInside, two_tests}

module _ (disk : Disk) (r : Resolver) where
  -- A path that is there: it has no ".." in it, and it is resolved to a path inside the root.
  pub record IsExisting (path : List ℕ) (c : Names) : Type 0 where
    pub absolute : Names
    pub abs_is : disk.abs (trim_bytes path) ≡ some absolute
    pub links_are : disk.eval_symlinks absolute ≡ some c
    pub no_traversal : has_traversal (trim_bytes path) ≡ false
    pub contained : IsInside r.root c

  linked-IsInside :
      (o : Option Names) (c : Names)
      → existing_linked disk r o ≡ ok c
      → (o ≡ some c) × IsInside r.root c
  linked-IsInside none c h = cc
  linked-IsInside (some canonical) c h =
      let (is, contained) = inside-IsInside r canonical c h in (ap some is, contained)

  at-IsInside :
      (o : Option Names) (c : Names)
      → existing_at disk r o ≡ ok c
      → (absolute : Names) × (o ≡ some absolute)
        × (disk.eval_symlinks absolute ≡ some c)
        × IsInside r.root c
  at-IsInside none c h = cc
  at-IsInside (some absolute) c h =
      let (links, contained) = linked-IsInside (disk.eval_symlinks absolute) c h in
      (absolute, refl, links, contained)

  resolve_existing-IsExisting :
      (path : List ℕ) (c : Names) → resolve_existing disk r path ≡ ok c → IsExisting path c
  unfolding resolve_existing
  resolve_existing-IsExisting path c h =
      let (_, free, rest) = two_tests _ _ _ _ _ c h in
      let (absolute, is, links, contained) = at-IsInside (disk.abs (trim_bytes path)) c rest in
      record {
        absolute = absolute;
        abs_is = is;
        links_are = links;
        no_traversal = free;
        contained = contained;
      }

  -- No path from this one on along the names is there.
  abbrev pub AreAbsent : Names → Names → Type 0
  AreAbsent ancestor [] = Unit
  AreAbsent ancestor (n ∷ ns) =
      (disk.lstat (ancestor ++ n ∷ []) ≡ absent) × AreAbsent (ancestor ++ n ∷ []) ns

  stepped :
      (p : Presence) (ancestor suffix : Names) (rest : Result Refusal (Names × Names))
      (x : Names × Names)
      → step_up disk r p ancestor suffix rest ≡ ok x
      → ((p ≡ there) × ((ancestor, suffix) ≡ x)) ⊎ ((p ≡ absent) × (rest ≡ ok x))
  stepped there ancestor suffix rest x h = inl (refl, cc)
  stepped absent ancestor suffix rest x h = inr (refl, h)
  stepped unknown ancestor suffix rest x h = cc

  unrefused :
      (b : Bool) (rest : Result Refusal (Names × Names)) (x : Names × Names)
      → (if b then err traversal else rest) ≡ ok x
      → rest ≡ ok x
  unrefused true rest x h = cc
  unrefused false rest x h = h

  abbrev Found : Names → Names → Names × Names → Type 0
  Found names suffix x =
      (reverse names ++ suffix ≡ x.0 ++ x.1) × (disk.lstat x.0 ≡ there) × AreAbsent x.0 x.1

  -- The loop ends at an ancestor that is there, and nothing below it on the path is.
  find_ancestor-Found :
      (names suffix : Names) (x : Names × Names)
      → AreAbsent (reverse names) suffix
      → find_ancestor disk r names suffix ≡ ok x
      → Found names suffix x
  unfolding find_ancestor
  find_ancestor-Found [] suffix x below h = elim (stepped (disk.lstat []) [] suffix _ x h) [
    | inl (t, e) ↦ subst (Found [] suffix) e (refl, t, below)
    | inr (_, e) ↦ absurd (no_root x e)
  ]
    where
      no_root :
          (x : Names × Names) → ◌≡◌ {A = Result Refusal (Names × Names)} (err not_there) (ok x) → ⊥
      no_root x k = cc
  find_ancestor-Found (name ∷ up) suffix x below h =
      elim (stepped (disk.lstat (reverse (name ∷ up))) (reverse (name ∷ up)) suffix _ x h) [
        | inl (t, e) ↦ subst (Found (name ∷ up) suffix) e (refl, t, below)
        | inr (t, e) ↦
            let below' : AreAbsent (reverse up) (name ∷ suffix) =
              subst (λ p. (disk.lstat p ≡ absent) × AreAbsent p suffix) (reverse-cons name up)
                (t, below) in
            let (parts, present, missing) =
              find_ancestor-Found up (name ∷ suffix) x below' (unrefused _ _ x e) in
            (
              ap (λ p. p ++ suffix) (reverse-cons name up)
                  ∙ append_assoc (reverse up) (name ∷ []) suffix
                  ∙ parts,
              present,
              missing,
            )
      ]

  -- A path that may be made: its nearest ancestor that is there resolves to a directory, or is the
  -- path itself; the names after it, none of which is there, are joined to it; and the path that
  -- this gives is inside the root.
  pub record IsCreatable (path : List ℕ) (c : Names) : Type 0 where
    pub ancestor : Names
    pub suffix : Names
    pub canonical : Names
    pub abs_is : disk.abs (trim_bytes path) ≡ some (ancestor ++ suffix)
    pub present : disk.lstat ancestor ≡ there
    pub missing : AreAbsent ancestor suffix
    pub links_are : disk.eval_symlinks ancestor ≡ some canonical
    pub joined_is : c ≡ canonical ++ suffix
    pub no_traversal : has_traversal (trim_bytes path) ≡ false
    pub contained : IsInside r.root c

  joined-IsInside :
      (canonical suffix : Names) (dir : Option Bool) (c : Names)
      → joined disk r canonical suffix dir ≡ ok c
      → (c ≡ canonical ++ suffix) × IsInside r.root c
  joined-IsInside canonical suffix none c h = cc
  joined-IsInside canonical suffix (some dir) c h =
      let (is, contained) = inside-IsInside r (canonical ++ suffix) c (only _ _ h) in
      (sym is, contained)
    where
      only :
          (b : Bool) (x : Result Refusal Names)
          → (if b then err no_directory else x) ≡ ok c
          → x ≡ ok c
      only true x k = cc
      only false x k = k

  linked_creation :
      (suffix : Names) (o : Option Names) (c : Names)
      → creation_linked disk r suffix o ≡ ok c
      → (canonical : Names) × (o ≡ some canonical) × (c ≡ canonical ++ suffix) × IsInside r.root c
  linked_creation suffix none c h = cc
  linked_creation suffix (some canonical) c h =
      let (is, contained) = joined-IsInside canonical suffix (disk.is_dir canonical) c h in
      (canonical, refl, is, contained)

  found_creation :
      (path : List ℕ) (absolute : Names) (x : Result Refusal (Names × Names)) (c : Names)
      → disk.abs (trim_bytes path) ≡ some absolute
      → has_traversal (trim_bytes path) ≡ false
      → find_ancestor disk r (reverse absolute) [] ≡ x
      → creation_from disk r x ≡ ok c
      → IsCreatable path c
  found_creation path absolute (err e) c is free found h = cc
  found_creation path absolute (ok (ancestor, suffix)) c is free found h =
      let (canonical, links, joined, contained) =
        linked_creation suffix (disk.eval_symlinks ancestor) c h in
      let (parts, present, missing) =
        find_ancestor-Found (reverse absolute) [] (ancestor, suffix) tt found in
      record {
        ancestor = ancestor;
        suffix = suffix;
        canonical = canonical;
        abs_is =
            is
            ∙ ap some (
                sym (append-nil absolute)
                ∙ ap (λ p. p ++ []) (sym (reverse-reverse absolute))
                ∙ parts);
        present = present;
        missing = missing;
        links_are = links;
        joined_is = joined;
        no_traversal = free;
        contained = contained;
      }

  absolute_creation :
      (path : List ℕ) (o : Option Names) (c : Names)
      → disk.abs (trim_bytes path) ≡ o
      → has_traversal (trim_bytes path) ≡ false
      → creation_at disk r o ≡ ok c
      → IsCreatable path c
  absolute_creation path none c is free h = cc
  absolute_creation path (some absolute) c is free h =
      found_creation path absolute _ c is free refl h

  -- A path that ResolveForCreation answers lies inside the root. It is what the nearest ancestor
  -- that is there resolves to, with the names after that ancestor, none of which is there, and the
  -- text has no "..".
  pub resolve_for_creation-IsCreatable :
      (path : List ℕ) (c : Names) → resolve_for_creation disk r path ≡ ok c → IsCreatable path c
  unfolding resolve_for_creation
  resolve_for_creation-IsCreatable path c h =
      let (_, free, rest) = two_tests _ _ _ _ _ c h in
      absolute_creation path (disk.abs (trim_bytes path)) c refl free rest

module _ (disk : Disk) (makes : Names → Bool) (later : Disk) (r : Resolver) where
  -- What CreateDir made: a directory at a path that follows the root, which is resolved again after
  -- that.
  pub record IsMade (path : List ℕ) (c : Names) : Type 0 where
    pub rel : Names
    pub creatable : IsCreatable disk r path (r.root ++ rel)
    pub made_is : makes rel ≡ true
    pub existing : IsExisting later r (text_of (r.root ++ rel)) c

  made-IsMade :
      (path : List ℕ) (candidate c : Names) (o : Option Names)
      → resolve_for_creation disk r path ≡ ok candidate
      → rel_of (strip_common r.root candidate) ≡ o
      → made disk makes later r candidate o ≡ ok c
      → IsMade path c
  made-IsMade path candidate c none found e h = cc
  made-IsMade path candidate c (some rel) found e h =
      let (below, makes_it, rest) = tests (is_below (some rel)) (makes rel) h in
      let is : candidate ≡ r.root ++ rel = rel-below r.root candidate rel e below in
      record {
        rel = rel;
        creatable =
            subst (IsCreatable disk r path) is
              (resolve_for_creation-IsCreatable disk r path candidate found);
        made_is = makes_it;
        existing =
            subst (λ p. IsExisting later r (text_of p) c) is
              (resolve_existing-IsExisting later r (text_of candidate) c rest);
      }
    where
      tests :
          (a b : Bool) {x : Result Refusal Names}
          → (if not a then err outside_root else if b then x else err not_made) ≡ ok c
          → (a ≡ true) × (b ≡ true) × (x ≡ ok c)
      tests true true k = (refl, refl, k)
      tests true false k = cc
      tests false b k = cc

  created :
      (path : List ℕ) (x : Result Refusal Names) (c : Names)
      → resolve_for_creation disk r path ≡ x
      → create_at disk makes later r x ≡ ok c
      → IsMade path c
  created path (err e) c found h = cc
  created path (ok candidate) c found h = made-IsMade path candidate c _ found refl h

  -- A path that CreateDir answers lies inside the root, whatever the disk is like after the
  -- directory is made: it was made at a path that follows the root, whose own resolution was inside
  -- it, and the answer is what that path resolves to afterwards, inside the root again.
  pub create_dir-IsMade :
      (path : List ℕ) (c : Names) → create_dir disk makes later r path ≡ ok c → IsMade path c
  unfolding create_dir
  create_dir-IsMade path c h = created path (resolve_for_creation disk r path) c refl h
