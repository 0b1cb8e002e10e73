-- ===== src/Loom/Command.antt =====
-- The handlers of routes/loom.py that change a tree by hand, as commands on one loom.
use acs_base_model_api.Base.{ℕ, Option}
use acs_base_model_api.Base.Json.{ℤ}
use acs_base_model_api.Base.Text.{Text}
use acs_base_model_api.Loom.Node.{Store}
use acs_base_model_api.Loom.Edit.{
  Request, Outcome, Cascade, loom_create_root, loom_delete_node, loom_edit_node, loom_split_node,
  loom_new_sibling,
}

-- what a request asks for; an inserting one carries the new row's id
pub data Command : Type 0 where
  create_root : Text → ℕ → Command
  delete_node : ℕ → Command
  edit_node : ℕ → Text → Command
  split_node : ℕ → ℤ → Option Text → ℕ → Command
  new_sibling : ℕ → Text → ℕ → Command

unfoldable pub handle : Cascade → Request → ℕ → Command → Store → Outcome
handle cascade r loom_id (create_root text fresh) s =
    loom_create_root cascade r loom_id text fresh s
handle cascade r loom_id (delete_node node_id) s = loom_delete_node cascade r loom_id node_id s
handle cascade r loom_id (edit_node node_id text) s = loom_edit_node r loom_id node_id text s
handle cascade r loom_id (split_node node_id offset text fresh) s =
    loom_split_node r loom_id node_id offset text fresh s
handle cascade r loom_id (new_sibling node_id text fresh) s =
    loom_new_sibling r loom_id node_id text fresh s
