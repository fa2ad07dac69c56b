-- ===== src/BasePath/Tests.antt =====
-- Mounts on small inputs, and their theorems at them.
use pican.Base.{◌≡◌, refl, some, none, ok, err}
use pican.Base.Text.{codes}
use pican.Sessions.Bytes.{trim_bytes, trim_left, trim_left_reversed}
use pican.BasePath.{MountPath, not_normalized, clean, parse, parse_trimmed, url, handler}
use pican.BasePath.Mount.{Serves, handler-Serves, handler-url}

abbrev mount : MountPath
mount = record { value = codes "/s/a" }

parses_mount : parse (codes " /s/a/ ") ≡ ok mount
unfolding parse parse_trimmed clean trim_bytes trim_left trim_left_reversed
parses_mount = refl

refuses_dots : parse (codes "/s/../a") ≡ err not_normalized
unfolding parse parse_trimmed clean trim_bytes trim_left trim_left_reversed
refuses_dots = refl

other_mount : handler mount (codes "/s/ab") ≡ none
unfolding handler
other_mount = refl

handler-Serves_example : Serves mount (codes "/s/a/x") (handler mount (codes "/s/a/x"))
handler-Serves_example = handler-Serves mount (codes "/s/a/x") refl

handler-url_example : handler mount (url mount (codes "/x")) ≡ some (codes "/x")
handler-url_example = handler-url mount (codes "x") refl
