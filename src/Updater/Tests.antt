-- ===== src/Updater/Tests.antt =====
-- Versions and a checker on small inputs, and their theorems at them.
use pican.Base.{◌≡◌, refl, true, false, List, [], ◌∷◌}
use pican.Base.Orders.{less, more}
use pican.Base.Text.{codes}
use pican.Sessions.Bytes.{trim_bytes, trim_left, trim_left_reversed}
use pican.Updater.Versions.{
  compare_semver, split_version, part_value, atoi, compare_prerelease, compare_identifier,
}
use pican.Updater.Checker.{Release, is_dev_build, is_dev, snapshot, new}
use pican.Updater.Checker.Advertised.{Section, recorded, run, Offers, run-Offers}

release_after_beta : compare_semver (codes "v1.2.0") (codes "1.2.0-beta.24") ≡ more
unfolding compare_semver split_version part_value atoi compare_prerelease trim_bytes trim_left
    trim_left_reversed
release_after_beta = refl

beta_by_number : compare_semver (codes "v0.0.1-beta.9") (codes "v0.0.1-beta.24") ≡ less
unfolding compare_semver split_version part_value atoi compare_prerelease compare_identifier
    trim_bytes trim_left trim_left_reversed
beta_by_number = refl

dirty : is_dev_build (codes "0.0.1-beta.24-dirty") ≡ true
unfolding is_dev_build
dirty = refl

ahead : is_dev_build (codes "v0.0.1-beta.24-3-gd7e8bf2") ≡ true
unfolding is_dev_build
ahead = refl

clean_tag : is_dev_build (codes "v0.0.1-beta.24") ≡ false
unfolding is_dev_build
clean_tag = refl

abbrev newest : Release
newest = record { tag = codes "v2.0.0"; html_url = []; body = codes "new"; assets = [] }

abbrev history : List Section
history = recorded 5 newest ∷ []

shows : (snapshot (run history (new (codes "v1.0.0")))).has_update ≡ true
unfolding snapshot is_dev is_dev_build compare_semver split_version part_value atoi trim_bytes
    trim_left trim_left_reversed
shows = refl

run-Offers_example : Offers (run history (new (codes "v1.0.0")))
run-Offers_example = run-Offers (codes "v1.0.0") history shows
