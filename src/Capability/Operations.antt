-- ===== src/Capability/Operations.antt =====
-- apps/api/internal/capability/operations.go: the operations, with their resource types and actions.
use dev_plane.Prelude.{List, [], ◌∷◌, Option, none, some, if◌then◌else◌}
use dev_plane.Text.{Text, codes, text_eq}

abbrev pub op_read_file : Text
op_read_file = codes "read_file"

abbrev pub op_write_file : Text
op_write_file = codes "write_file"

abbrev pub op_apply_patch : Text
op_apply_patch = codes "apply_patch"

abbrev pub op_delete_file : Text
op_delete_file = codes "delete_file"

abbrev pub op_run_command : Text
op_run_command = codes "run_command"

abbrev pub op_run_tests : Text
op_run_tests = codes "run_tests"

abbrev pub op_install_dep : Text
op_install_dep = codes "install_dependency"

abbrev pub op_access_secret : Text
op_access_secret = codes "access_secret"

abbrev pub op_write_secret : Text
op_write_secret = codes "write_secret"

abbrev pub op_rotate_secret : Text
op_rotate_secret = codes "rotate_secret"

abbrev pub op_network_request : Text
op_network_request = codes "network_request"

abbrev pub op_call_mcp_tool : Text
op_call_mcp_tool = codes "call_mcp_tool"

abbrev pub op_start_preview : Text
op_start_preview = codes "start_preview_server"

abbrev pub op_stop_preview : Text
op_stop_preview = codes "stop_preview_server"

abbrev pub op_run_migration : Text
op_run_migration = codes "run_migration"

abbrev pub op_destructive_db : Text
op_destructive_db = codes "destructive_db"

abbrev pub op_create_commit : Text
op_create_commit = codes "create_commit"

abbrev pub op_push_branch : Text
op_push_branch = codes "push_branch"

abbrev pub op_open_pr : Text
op_open_pr = codes "open_pull_request"

abbrev pub op_merge_pr : Text
op_merge_pr = codes "merge_pull_request"

abbrev pub op_deploy : Text
op_deploy = codes "deploy"

abbrev pub op_delete_workspace : Text
op_delete_workspace = codes "delete_workspace"

abbrev pub op_modify_policy : Text
op_modify_policy = codes "modify_policy"

abbrev pub op_modify_budget : Text
op_modify_budget = codes "modify_budget"

abbrev pub op_search_repo : Text
op_search_repo = codes "search_repository"

abbrev pub op_static_analysis : Text
op_static_analysis = codes "static_analysis"

-- `operationResourceMap`: an operation, its resource type and its action
unfoldable pub operation_resource_map : List (Text × Text × Text)
operation_resource_map =
    (op_read_file, codes "file", codes "read")
    ∷ (op_write_file, codes "file", codes "write")
    ∷ (op_apply_patch, codes "file", codes "write")
    ∷ (op_delete_file, codes "file", codes "delete")
    ∷ (op_run_command, codes "command", codes "execute")
    ∷ (op_run_tests, codes "command", codes "test")
    ∷ (op_install_dep, codes "command", codes "install")
    ∷ (op_access_secret, codes "secret", codes "read")
    ∷ (op_write_secret, codes "secret", codes "write")
    ∷ (op_rotate_secret, codes "secret", codes "rotate")
    ∷ (op_network_request, codes "network", codes "request")
    ∷ (op_call_mcp_tool, codes "command", codes "execute")
    ∷ (op_start_preview, codes "deploy", codes "execute")
    ∷ (op_stop_preview, codes "deploy", codes "execute")
    ∷ (op_run_migration, codes "command", codes "migrate")
    ∷ (op_destructive_db, codes "command", codes "destructive_db")
    ∷ (op_create_commit, codes "git", codes "commit")
    ∷ (op_push_branch, codes "git", codes "push")
    ∷ (op_open_pr, codes "git", codes "create_pr")
    ∷ (op_merge_pr, codes "git", codes "merge")
    ∷ (op_deploy, codes "deploy", codes "execute")
    ∷ (op_delete_workspace, codes "workspace", codes "delete")
    ∷ (op_modify_policy, codes "policy", codes "write")
    ∷ (op_modify_budget, codes "budget", codes "write")
    ∷ (op_search_repo, codes "command", codes "search")
    ∷ (op_static_analysis, codes "command", codes "analyze")
    ∷ []

unfoldable pub lookup_operation : Text → List (Text × Text × Text) → Option (Text × Text)
lookup_operation op [] = none
lookup_operation op ((k, r, a) ∷ m) = if text_eq op k then some (r, a) else lookup_operation op m

unfoldable pub get_resource_and_action : Text → Text × Text
unfolding lookup_operation operation_resource_map
get_resource_and_action op = elim (lookup_operation op operation_resource_map) [
  | none ↦ ([], [])
  | some m ↦ m
]

unfoldable pub get_resource_type : Text → Text
unfolding get_resource_and_action
get_resource_type op = (get_resource_and_action op).0

unfoldable pub get_action : Text → Text
unfolding get_resource_and_action
get_action op = (get_resource_and_action op).1
