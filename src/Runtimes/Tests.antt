-- ===== src/Runtimes/Tests.antt =====
-- Startups of the runtime registry on small inputs, and its theorems at them.
use pican.Base.{ℕ, ◌≡◌, refl, ◌↔◌, String, true, false, List, [], ◌∷◌, Option, none, some, ok, err}
use pican.Base.Text.{codes, trim_space, is_space, trim_left}
use pican.Runtimes.Id.{parse_id, is_valid_id, is_id_char, is_lower_letter, IsId, parse_id_iff}
use pican.Runtimes.Capability.{Capabilities}
use pican.Runtimes.Registry.{
  Registration, Registry, duplicate_id, new, register, validate, open_runtime, new_worker,
  lookup_id,
}
use pican.Runtimes.Startup.{IsWellFormed, new-IsWellFormed}

two_dashes : parse_id "a--b" ≡ none
unfolding parse_id is_valid_id is_id_char is_lower_letter
two_dashes = refl

parse_id_iff_example :
    (parse_id "claude-2" ≡ some "claude-2")
    ↔ ((◌≡◌ {A = String} "claude-2" "claude-2") × IsId (codes "claude-2"))
parse_id_iff_example = parse_id_iff "claude-2" "claude-2"

abbrev chatting : Capabilities
chatting = record {
  create = true;
  resume = true;
  fork = false;
  clone = false;
  rename = true;
  archive = false;
  unarchive = false;
  delete = true;
  chat = true;
  cancel = true;
  steer = false;
  persistent_queue = true;
  images = false;
  files = true;
  model_listing = true;
  model_switching = true;
  effort_selection = false;
  reasoning_selection = false;
  slash_commands = true;
  subagents = false;
  interactive_approvals = false;
  user_questions = false;
}

abbrev runtime : String → ℕ → Registration
runtime id n = record {
  descriptor = record {
    id = id;
    label = "Agent";
    command = "agent";
    version = "";
    projection_mode = "append-only-native";
    capabilities = chatting;
  };
  availability_probe = some n;
  catalog = none;
  worker_factory = some n;
}

abbrev startup : List Registration
startup = runtime "pi" 1 ∷ runtime "codex" 2 ∷ []

abbrev started : Registry
started = record { ordered = startup; by_id = ("pi", 0) ∷ ("codex", 1) ∷ [] }

starts : new startup ≡ ok started
unfolding new register validate parse_id is_valid_id is_id_char is_lower_letter trim_space trim_left
    is_space
starts = refl

twice : new (runtime "pi" 1 ∷ runtime "pi" 2 ∷ []) ≡ err duplicate_id
unfolding new register validate parse_id is_valid_id is_id_char is_lower_letter trim_space trim_left
    is_space
twice = refl

new-IsWellFormed_example : IsWellFormed started × (started.ordered ≡ startup)
new-IsWellFormed_example = new-IsWellFormed startup started starts

abbrev make : ℕ → String → String → Option ℕ
make f session path = some f

makes : new_worker started make "codex" "s" "p" ≡ ok 2
unfolding new_worker open_runtime lookup_id parse_id is_valid_id is_id_char is_lower_letter
makes = refl
