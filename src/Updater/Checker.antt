-- ===== src/Updater/Checker.antt =====
-- internal/updater/updater.go: the checker, with what GitHub answers and the clock as arguments.
-- Each function is what a goroutine does while it holds the lock, or the calls of these in their
-- order, with what others do in between.
pub mod Advertised
use pican.Base.{
  ℕ, zero, suc, Bool, true, false, not, ◌&&◌, ◌||◌, List, [], ◌∷◌, ◌++◌, Option, none, some, Result,
  ok, err, leb, ◌==◌, if◌then◌else◌,
}
use pican.Base.Orders.{Sign, less, same, more}
use pican.Base.Text.{between, codes, same as same_text, has_prefix}
use pican.Updater.Versions.{compare_semver, is_empty}

pub record Asset : Type 0 where
  pub name : List ℕ
  pub download_url : List ℕ

pub record Release : Type 0 where
  pub tag : List ℕ
  pub html_url : List ℕ
  pub body : List ℕ
  pub assets : List Asset

pub record Info : Type 0 where
  pub current : List ℕ
  pub latest : List ℕ
  pub has_update : Bool
  pub is_dev : Bool
  pub changelog : List ℕ
  pub changelog_url : List ℕ
  pub checked_at : Option ℕ

pub record Checker : Type 0 where
  pub current : List ℕ
  pub release : Option Release
  pub latest : List ℕ
  pub changelog : List ℕ
  pub changelog_url : List ℕ
  pub checked_at : Option ℕ

pub data FetchError : Type 0 where
  not_sent : FetchError
  not_read : FetchError
  no_release : FetchError
  rate_limited : FetchError
  http_status : ℕ → FetchError
  not_decoded : FetchError
  missing_tag : FetchError
  no_asset : FetchError

abbrev pub new : List ℕ → Checker
new version = record {
  current = if is_empty version then codes "dev" else version;
  release = none;
  latest = [];
  changelog = [];
  changelog_url = [];
  checked_at = none;
}

abbrev pub is_digit : ℕ → Bool
is_digit = between 48 57

abbrev pub is_hex : ℕ → Bool
is_hex c = is_digit c || between 97 102 c

-- `[0-9a-f]{7,}` at the start, `n` of them being left to find.
abbrev pub hex_at : ℕ → List ℕ → Bool
hex_at zero cs = true
hex_at (suc n) [] = false
hex_at (suc n) (c ∷ cs) = is_hex c && hex_at n cs

-- `-g[0-9a-f]{7,}` at the start.
abbrev pub hash_at : List ℕ → Bool
hash_at [] = false
hash_at (c ∷ []) = false
hash_at (c ∷ d ∷ ds) = c == b'-' && d == b'g' && hex_at 7 ds

-- The same after more digits.
abbrev pub digits_then_hash : List ℕ → Bool
digits_then_hash [] = false
digits_then_hash (c ∷ cs) = if is_digit c then digits_then_hash cs else hash_at (c ∷ cs)

abbrev pub digit_then_hash : List ℕ → Bool
digit_then_hash [] = false
digit_then_hash (c ∷ cs) = is_digit c && digits_then_hash cs

-- `devVersionRe`, anywhere in the text.
unfoldable pub is_dev_build : List ℕ → Bool
is_dev_build [] = false
is_dev_build (c ∷ cs) =
    let later = is_dev_build cs in
    if (c == b'-' && digit_then_hash cs) || same_text (c ∷ cs) (codes "-dirty") then true else later

unfoldable pub is_dev : Checker → Bool
unfolding is_dev_build
is_dev c = is_empty c.current || same_text c.current (codes "dev") || is_dev_build c.current

abbrev pub is_more : Sign → Bool
is_more less = false
is_more same = false
is_more more = true

unfoldable pub snapshot : Checker → Info
unfolding is_dev compare_semver
snapshot c = record {
  current = c.current;
  latest = c.latest;
  has_update =
      if is_dev c
      then false
      else if is_empty c.latest
      then false
      else is_more (compare_semver c.latest c.current);
  is_dev = is_dev c;
  changelog = c.changelog;
  changelog_url = c.changelog_url;
  checked_at = c.checked_at;
}

-- What the request comes to: it is not sent, its body cannot be read, or a status with the document
-- that the body decodes to, if it does.
pub data Reply : Type 0 where
  unsent : Reply
  unread : Reply
  replied : ℕ → Option Release → Reply

abbrev pub decoded : Option Release → Result FetchError Release
decoded none = err not_decoded
decoded (some r) = if is_empty r.tag then err missing_tag else ok r

unfoldable pub fetch_latest_release : Reply → Result FetchError Release
fetch_latest_release unsent = err not_sent
fetch_latest_release unread = err not_read
fetch_latest_release (replied status doc) =
    if status == 200
    then decoded doc
    else if status == 404
    then err no_release
    else if status == 403 || status == 429
    then err rate_limited
    else err (http_status status)

-- The section of `Check` after the fetch.
abbrev pub record_release : ℕ → Release → Checker → Checker
record_release now r c =
    let described = not (is_empty r.body && is_empty r.html_url) in
    record c {
      latest = r.tag;
      release = some r;
      changelog = if described then r.body else c.changelog;
      changelog_url = if described then r.html_url else c.changelog_url;
      checked_at = some now;
    }

module _ (others : Checker → Checker) (now : ℕ) (reply : Reply) where
  abbrev pub fetched : Checker → Result FetchError Release → (Info × Option FetchError) × Checker
  fetched c (err e) = ((snapshot (others c), some e), others c)
  fetched c (ok r) = let d = record_release now r (others c) in ((snapshot d, none), d)

  unfoldable pub check : Checker → (Info × Option FetchError) × Checker
  unfolding is_dev snapshot fetch_latest_release
  check c =
      let d = record c { checked_at = some now } in
      if is_dev c then ((snapshot d, none), d) else fetched c (fetch_latest_release reply)

-- The section of `latestRelease` after its fetch: a release that another one cached is kept.
abbrev pub cache_release : Release → Checker → Option Release → Release × Checker
cache_release r c none = (r, record c { release = some r })
cache_release r c (some cached) = (cached, c)

abbrev pub store_fetched : Checker → Result FetchError Release → Result FetchError Release × Checker
store_fetched c (err e) = (err e, c)
store_fetched c (ok r) = let (held, d) = cache_release r c c.release in (ok held, d)

module _ (others : Checker → Checker) (reply : Reply) where
  abbrev pub cached_or_fetched : Checker → Option Release → Result FetchError Release × Checker
  unfolding fetch_latest_release
  cached_or_fetched c (some r) = (ok r, c)
  cached_or_fetched c none = store_fetched (others c) (fetch_latest_release reply)

  unfoldable pub latest_release : Checker → Result FetchError Release × Checker
  unfolding cached_or_fetched
  latest_release c = cached_or_fetched c c.release

abbrev pub asset_name_for_platform : List ℕ → List ℕ
asset_name_for_platform platform =
    if has_prefix (codes "windows-") platform
    then codes "pican-" ++ (platform ++ codes ".exe")
    else codes "pican-" ++ platform

abbrev pub find_asset : List ℕ → List Asset → Option Asset
find_asset name [] = none
find_asset name (a ∷ as') = if same_text a.name name then some a else find_asset name as'

abbrev pub offered : Release → Option Asset → Result FetchError (List ℕ × Asset)
offered r none = err no_asset
offered r (some a) = ok (r.tag, a)

abbrev pub asset_of :
    List ℕ → Result FetchError Release × Checker → Result FetchError (List ℕ × Asset) × Checker
asset_of name (err e, c) = (err e, c)
asset_of name (ok r, c) = (offered r (find_asset name r.assets), c)

-- The tag, the asset's name and its address.
unfoldable pub latest_asset :
    (Checker → Checker) → Reply → List ℕ → Checker → Result FetchError (List ℕ × Asset) × Checker
unfolding latest_release
latest_asset others reply platform c =
    asset_of (asset_name_for_platform platform) (latest_release others reply c)

abbrev pub url_of : Option Asset → List ℕ
url_of none = []
url_of (some a) = a.download_url

abbrev pub checksums_of : Result FetchError Release × Checker → Result FetchError (List ℕ) × Checker
checksums_of (err e, c) = (err e, c)
checksums_of (ok r, c) = (ok (url_of (find_asset (codes "sha256sums.txt") r.assets)), c)

unfoldable pub latest_checksums_url :
    (Checker → Checker) → Reply → Checker → Result FetchError (List ℕ) × Checker
unfolding latest_release
latest_checksums_url others reply c = checksums_of (latest_release others reply c)
