-- ===== src/Runtimes/Registry.antt =====
-- The registry of internal/runtimes/registry.go.
use pican.Base.{
  ℕ, String, Bool, true, false, not, ◌&&◌, ◌||◌, List, [], ◌∷◌, ◌++◌, map, Option, none, some,
  str_eq, if◌then◌else◌, Result, ok, ◌>>=◌, ◌>>◌, guard, or_fail, length, get_elem?,
}
use Prim.Native.String
use pican.Base.Text.{codes, trim_space}
use pican.Base.Assoc.{lookup, insert}
use pican.Runtimes.Id.{parse_id}
use pican.Runtimes.Capability.{Capabilities}

pub record Descriptor : Type 0 where
  pub id : String
  pub label : String
  pub command : String
  pub version : String
  pub projection_mode : String
  pub capabilities : Capabilities

pub record Availability : Type 0 where
  pub available : Bool
  pub reason : String

pub record Registration : Type 0 where
  pub descriptor : Descriptor
  pub availability_probe : Option ℕ
  pub catalog : Option ℕ
  pub worker_factory : Option ℕ

pub data Error : Type 0 where
  invalid_id not_registered duplicate_id : Error
  label_required command_required invalid_projection_mode probe_required : Error
  factory_required catalog_required chat_unsupported factory_failed : Error
  -- The index expression of `Lookup` panics.
  index_out_of_range : Error

abbrev pub is_replaceable : String → Bool
is_replaceable m = str_eq m "replaceable-projection"

abbrev pub is_valid_mode : String → Bool
is_valid_mode m = str_eq m "append-only-native" || is_replaceable m

abbrev pub is_set : Option ℕ → Bool
is_set none = false
is_set (some x) = true

abbrev is_nil : List ℕ → Bool
is_nil [] = true
is_nil (x ∷ xs) = false

-- `strings.TrimSpace(s) == ""`
abbrev pub is_blank : String → Bool
is_blank s = is_nil (trim_space (codes s))

unfoldable pub validate : Registration → Result Error (Unit {0})
unfolding parse_id
validate r = do
  id ← or_fail (parse_id r.descriptor.id) invalid_id
  guard (str_eq id r.descriptor.id) invalid_id
  guard (not (is_blank r.descriptor.label)) label_required
  guard (not (is_blank r.descriptor.command)) command_required
  guard (is_valid_mode r.descriptor.projection_mode) invalid_projection_mode
  guard (is_set r.availability_probe) probe_required
  guard (not (r.descriptor.capabilities.chat && not (is_set r.worker_factory))) factory_required
  guard (not (is_replaceable r.descriptor.projection_mode && not (is_set r.catalog)))
      catalog_required

pub record Registry : Type 0 where
  pub ordered : List Registration
  pub by_id : List (String × ℕ)

abbrev pub empty_registry : Registry
empty_registry = record { ordered = []; by_id = [] }

unfoldable pub register : Registry → Registration → Result Error Registry
unfolding validate
register g r = do
  validate r
  guard (not (is_set (lookup r.descriptor.id g.by_id))) duplicate_id
  ok (record {
    ordered = g.ordered ++ r ∷ [];
    by_id = insert r.descriptor.id (length g.ordered) g.by_id;
  })

abbrev pub register_all : Registry → List Registration → Result Error Registry
register_all g [] = ok g
register_all g (r ∷ rs) = do g' ← register g r; register_all g' rs

unfoldable pub new : List Registration → Result Error Registry
unfolding register
new rs = register_all empty_registry rs

-- `Lookup`; `none` is an id that is not registered.
unfoldable pub lookup_id : Registry → String → Result Error (Option Registration)
lookup_id g id = elim (lookup id g.by_id) [
  | none ↦ ok none
  | some index ↦ do r ← or_fail (get_elem? g.ordered index) index_out_of_range; ok (some r)
]

unfoldable pub open_runtime : Registry → String → Result Error Registration
unfolding lookup_id parse_id
open_runtime g value = do
  id ← or_fail (parse_id value) invalid_id
  r ← lookup_id g id
  or_fail r not_registered

abbrev pub ids : Registry → List String
ids g = map (λ r. r.descriptor.id) g.ordered

-- `probe` is what the registered probe answers now.
abbrev probed : (ℕ → Availability) → Option ℕ → Availability
probed probe none = record { available = false; reason = "" }
probed probe (some p) = probe p

abbrev explained : String → Availability → Availability
explained label a =
    if a.available
    then record a { reason = "" }
    else if is_blank a.reason
    then record a { reason = String.◌++◌ label " runtime is unavailable" }
    else a

unfoldable pub availability : Registry → (ℕ → Availability) → String → Result Error Availability
unfolding open_runtime
availability g probe value = do
  r ← open_runtime g value
  ok (explained r.descriptor.label (probed probe r.availability_probe))

-- `make` is the factory's answer for a session id and path.
unfoldable pub new_worker :
    Registry → (ℕ → String → String → Option ℕ) → String → String → String → Result Error ℕ
unfolding open_runtime
new_worker g make runtime_id session_id session_path = do
  r ← open_runtime g runtime_id
  guard r.descriptor.capabilities.chat chat_unsupported
  factory ← or_fail r.worker_factory chat_unsupported
  or_fail (make factory session_id session_path) factory_failed
