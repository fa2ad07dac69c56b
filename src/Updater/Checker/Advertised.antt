-- ===== src/Updater/Checker/Advertised.antt =====
-- internal/updater/updater.go: the release that is installed is the one that was advertised.
use pican.Base.{
  ℕ, ◌≡◌, refl, ◌∙◌, sym, ◌⊎◌, inl, inr, Bool, true, false, List, [], ◌∷◌, Option, none, some,
  Result, ok, err, if◌then◌else◌, Bool-cases,
}
use pican.Base.Orders.{Sign, less, same, more}
use pican.Updater.Versions.{compare_semver, is_empty}
use pican.Updater.Checker.{
  Checker, Release, Reply, FetchError, new, is_dev, is_more, snapshot, fetch_latest_release,
  record_release, cache_release, fetched, check, offered, find_asset, asset_name_for_platform,
  latest_asset,
}

-- Nothing is advertised yet, or the release that is cached.
abbrev pub IsAdvertised : Checker → Type 0
IsAdvertised c = (c.latest ≡ []) ⊎ ((r : Release) × (c.release ≡ some r) × (r.tag ≡ c.latest))

cache-IsAdvertised :
    (r : Release) (c : Checker) (cached : Option Release)
    → IsAdvertised c
    → c.release ≡ cached
    → IsAdvertised (cache_release r c cached).1
cache-IsAdvertised r c (some held) h e = h
cache-IsAdvertised r c none (inl h) e = inl h
cache-IsAdvertised r c none (inr (held, there, _)) e = cc

-- What is written under the lock: the stamp of a check on a development build, and the ends of
-- `Check` and of `latestRelease` after their fetches.
pub data Section : Type 0 where
  stamped : ℕ → Section
  recorded : ℕ → Release → Section
  stored : Release → Section

abbrev pub write : Section → Checker → Checker
write (stamped now) c = record c { checked_at = some now }
write (recorded now r) c = record_release now r c
write (stored r) c = (cache_release r c c.release).1

abbrev pub run : List Section → Checker → Checker
run [] c = c
run (w ∷ ws) c = run ws (write w c)

write-IsAdvertised : (w : Section) (c : Checker) → IsAdvertised c → IsAdvertised (write w c)
write-IsAdvertised (stamped now) c h = h
write-IsAdvertised (recorded now r) c h = inr (r, refl, refl)
write-IsAdvertised (stored r) c h = cache-IsAdvertised r c c.release h refl

run-IsAdvertised : (ws : List Section) (c : Checker) → IsAdvertised c → IsAdvertised (run ws c)
run-IsAdvertised [] c h = h
run-IsAdvertised (w ∷ ws) c h = run-IsAdvertised ws (write w c) (write-IsAdvertised w c h)

-- Each operation writes such sections, with those of others before.
abbrev pub Writes : (Checker → Checker) → Checker → Checker → Type 0
Writes others c d =
    (d ≡ c) ⊎ (d ≡ others c) ⊎ ((w : Section) × ((d ≡ write w c) ⊎ (d ≡ write w (others c))))

fetched-Writes :
    (others : Checker → Checker) (now : ℕ) (reply : Reply) (c : Checker)
    (r : Result FetchError Release)
    → Writes others c (fetched others now reply c r).1
fetched-Writes others now reply c (err e) = inr (inl refl)
fetched-Writes others now reply c (ok r) = inr (inr (recorded now r, inr refl))

check-Writes :
    (others : Checker → Checker) (now : ℕ) (reply : Reply) (c : Checker)
    → Writes others c (check others now reply c).1
unfolding check
check-Writes others now reply c = elim (Bool-cases (is_dev c)) [
  | inl dev ↦ rw dev (inr (inr (stamped now, inl refl)))
  | inr built ↦ rw built (fetched-Writes others now reply c (fetch_latest_release reply))
]

-- The offer of an update: there is one exactly for a build that is no development build, behind the
-- release that is cached. The asset for a platform is then looked for in that release, whose tag is
-- the one shown, without another fetch.
abbrev pub Offers : Checker → Type 0
Offers c =
    (r : Release) × (r.tag ≡ (snapshot c).latest)
    × (is_dev c ≡ false)
    × (compare_semver r.tag c.current ≡ more)
    × ((others : Checker → Checker) (reply : Reply) (platform : List ℕ)
        → latest_asset others reply platform c
          ≡ (offered r (find_asset (asset_name_for_platform platform) r.assets), c))

is_more_only : (s : Sign) → is_more s ≡ true → s ≡ more
is_more_only less h = cc
is_more_only same h = cc
is_more_only more h = refl

all_tests :
    (a b m : Bool)
    → (if a then false else if b then false else m) ≡ true
    → (a ≡ false) × (b ≡ false) × (m ≡ true)
all_tests true b m h = cc
all_tests false true m h = cc
all_tests false false m h = (refl, refl, h)

has_update_cases :
    (c : Checker)
    → (snapshot c).has_update ≡ true
    → (is_dev c ≡ false) × (is_empty c.latest ≡ false) × (compare_semver c.latest c.current ≡ more)
unfolding snapshot
has_update_cases c h =
    let (built, some_latest, newer) =
      all_tests (is_dev c) (is_empty c.latest) (is_more (compare_semver c.latest c.current)) h in
    (built, some_latest, is_more_only (compare_semver c.latest c.current) newer)

snapshot-latest : (c : Checker) → (snapshot c).latest ≡ c.latest
unfolding snapshot
snapshot-latest c = refl

offers :
    (c : Checker) (r : Release)
    → c.release ≡ some r
    → (others : Checker → Checker) (reply : Reply) (platform : List ℕ)
    → latest_asset others reply platform c
      ≡ (offered r (find_asset (asset_name_for_platform platform) r.assets), c)
unfolding latest_asset
offers c r e others reply platform = rw e refl

-- Whatever was written before and in whichever order, a checker that shows an update is of no
-- development build and behind the version that it shows; and LatestAsset takes the asset for any
-- platform from the cached release of just that tag, whatever GitHub would answer by then, and
-- changes nothing.
pub run-Offers :
    (version : List ℕ) (ws : List Section)
    → let c = run ws (new version) in (snapshot c).has_update ≡ true → Offers c
run-Offers version ws h =
    let c = run ws (new version) in
    let (built, some_latest, newer) = has_update_cases c h in
    by_advertised c built some_latest newer (run-IsAdvertised ws (new version) (inl refl))
  where
    by_advertised :
        (c : Checker)
        → is_dev c ≡ false
        → is_empty c.latest ≡ false
        → compare_semver c.latest c.current ≡ more
        → IsAdvertised c
        → Offers c
    by_advertised c built some_latest newer (inl none_yet) = cc
    by_advertised c built some_latest newer (inr (r, there, tag)) =
        (r, tag ∙ sym (snapshot-latest c), built, rw tag newer, offers c r there)
