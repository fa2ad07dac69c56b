-- ===== src/Runtimes/Capability.antt =====
-- Capabilities of internal/runtimes/registry.go.
use pican.Base.{Bool, false, String, str_eq, if◌then◌else◌}

pub record Capabilities : Type 0 where
  pub create : Bool
  pub resume : Bool
  pub fork : Bool
  pub clone : Bool
  pub rename : Bool
  pub archive : Bool
  pub unarchive : Bool
  pub delete : Bool
  pub chat : Bool
  pub cancel : Bool
  pub steer : Bool
  pub persistent_queue : Bool
  pub images : Bool
  pub files : Bool
  pub model_listing : Bool
  pub model_switching : Bool
  pub effort_selection : Bool
  pub reasoning_selection : Bool
  pub slash_commands : Bool
  pub subagents : Bool
  pub interactive_approvals : Bool
  pub user_questions : Bool

-- `Supports`, by the public name of the capability; a name that is not in the list is unsupported.
unfoldable pub supports : Capabilities → String → Bool
supports c name =
    if str_eq name "create"
    then c.create
    else if str_eq name "resume"
    then c.resume
    else if str_eq name "fork"
    then c.fork
    else if str_eq name "clone"
    then c.clone
    else if str_eq name "rename"
    then c.rename
    else if str_eq name "archive"
    then c.archive
    else if str_eq name "unarchive"
    then c.unarchive
    else if str_eq name "delete"
    then c.delete
    else if str_eq name "chat"
    then c.chat
    else if str_eq name "cancel"
    then c.cancel
    else if str_eq name "steer"
    then c.steer
    else if str_eq name "persistent queue"
    then c.persistent_queue
    else if str_eq name "image attachments"
    then c.images
    else if str_eq name "file references"
    then c.files
    else if str_eq name "model listing"
    then c.model_listing
    else if str_eq name "model switching"
    then c.model_switching
    else if str_eq name "effort selection"
    then c.effort_selection
    else if str_eq name "reasoning selection"
    then c.reasoning_selection
    else if str_eq name "slash commands"
    then c.slash_commands
    else if str_eq name "subagents"
    then c.subagents
    else false
