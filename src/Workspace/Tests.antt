-- ===== src/Workspace/Tests.antt =====
-- A workspace on a small disk, and the theorems on what is admitted at it.
use pican.Base.{◌≡◌, refl, true, [], ◌∷◌, some, ok, err, if◌then◌else◌}
use pican.Base.Text.{codes, same}
use pican.Sessions.Bytes.{trim_bytes, trim_left, trim_left_reversed}
use pican.Workspace.{
  Names, Presence, there, absent, Disk, Resolver, traversal, outside_root, components, contains,
  has_traversal, find_ancestor, resolve_existing, resolve_for_creation, create_dir,
}
use pican.Workspace.Contained.{
  IsCreatable, IsMade, resolve_for_creation-IsCreatable, create_dir-IsMade,
}

abbrev tail_of : Names → Names
tail_of [] = []
tail_of (n ∷ ns) = ns

-- "/l" is a link to "/o", outside of the root "/w"; nothing is there but what stands right under
-- "/".
abbrev followed : Names → Names
followed [] = []
followed (n ∷ ns) = if same n (codes "l") then codes "o" ∷ ns else n ∷ ns

abbrev present_at : Names → Presence
present_at [] = there
present_at (n ∷ []) = there
present_at (n ∷ m ∷ ns) = absent

abbrev small : Disk
small = record {
  abs = λ path. some (tail_of (components path));
  eval_symlinks = λ ns. some (followed ns);
  lstat = present_at;
  is_dir = λ ns. some true;
}

abbrev at_w : Resolver
at_w = record { root = codes "w" ∷ [] }

abbrev new_path : Names
new_path = codes "w" ∷ codes "a" ∷ codes "b" ∷ []

resolves_new : resolve_for_creation small at_w (codes "/w/a/b") ≡ ok new_path
unfolding resolve_for_creation has_traversal find_ancestor contains trim_bytes trim_left
    trim_left_reversed
resolves_new = refl

refuses_link : resolve_for_creation small at_w (codes "/l/a") ≡ err outside_root
unfolding resolve_for_creation has_traversal find_ancestor contains trim_bytes trim_left
    trim_left_reversed
refuses_link = refl

refuses_dots : resolve_existing small at_w (codes "/w/../o") ≡ err traversal
unfolding resolve_existing has_traversal trim_bytes trim_left trim_left_reversed
refuses_dots = refl

creates_new : create_dir small (λ rel. true) small at_w (codes "/w/a/b") ≡ ok new_path
unfolding create_dir resolve_existing resolve_for_creation has_traversal find_ancestor contains
    trim_bytes trim_left trim_left_reversed
creates_new = refl

resolve_for_creation-IsCreatable_example : IsCreatable small at_w (codes "/w/a/b") new_path
resolve_for_creation-IsCreatable_example =
    resolve_for_creation-IsCreatable small at_w (codes "/w/a/b") new_path resolves_new

create_dir-IsMade_example : IsMade small (λ rel. true) small at_w (codes "/w/a/b") new_path
create_dir-IsMade_example =
    create_dir-IsMade small (λ rel. true) small at_w (codes "/w/a/b") new_path creates_new
