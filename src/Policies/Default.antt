-- ===== src/Policies/Default.antt =====
-- packages/policies/policy.go: `DefaultEngine`.
use Prim.Native.String.{String}
use dev_plane.Prelude.{ℕ, List, [], ◌∷◌}
use dev_plane.Prelude.Int.{pos}
use dev_plane.Text.{Text, codes}
use dev_plane.Policies.Defs.{Effect, allow, ask, deny, admin_only, Value, int, str, Policy}

module _ {F : Type 0} where
  abbrev pub rule : String → String → String → Effect → ℕ → List (Text × Value F) → Policy F
  rule name resource_type action effect priority conditions = record {
    name = codes name;
    resource_type = codes resource_type;
    action = codes action;
    effect = effect;
    conditions = conditions;
    priority = pos priority;
  }

  unfoldable pub default_policies : List (Policy F)
  default_policies =
      rule "allow_file_reads" "file" "read" allow 100 []
      ∷ rule "allow_repo_search" "command" "search" allow 100 []
      ∷ rule "allow_static_analysis" "command" "analyze" allow 100 []
      ∷ rule "allow_tests" "command" "test" allow 100 []
      ∷ rule "ask_file_writes" "file" "write" ask 200 []
      ∷ rule "ask_command_execute" "command" "execute" ask 200 []
      ∷ rule "ask_dependency_install" "command" "install" ask 200 []
      ∷ rule "ask_db_migrate" "command" "migrate" ask 200 []
      ∷ rule "ask_git_commit" "git" "commit" ask 200 []
      ∷ rule "ask_git_push" "git" "push" ask 200 []
      ∷ rule "ask_network" "network" "*" ask 200 []
      ∷ rule "ask_pr_create" "git" "create_pr" ask 200 []
      ∷ rule "deny_production_secrets" "secret" "read" deny 300
          ((codes "scope", str (codes "production")) ∷ [])
      ∷ rule "deny_destructive_db" "command" "destructive_db" deny 300 []
      ∷ rule "deny_large_delete" "file" "delete" deny 300 ((codes "min_size_mb", int (pos 10)) ∷ [])
      ∷ rule "deny_push_main" "git" "push" deny 300 ((codes "branch", str (codes "main")) ∷ [])
      ∷ rule "deny_production_deploy" "deploy" "*" deny 300
          ((codes "environment", str (codes "production")) ∷ [])
      ∷ rule "admin_deploy_prod" "deploy" "*" admin_only 400
          ((codes "environment", str (codes "production")) ∷ [])
      ∷ rule "admin_merge_pr" "git" "merge" admin_only 400 []
      ∷ rule "admin_write_secrets" "secret" "write" admin_only 400 []
      ∷ rule "admin_rotate_secrets" "secret" "rotate" admin_only 400 []
      ∷ rule "admin_modify_policies" "policy" "*" admin_only 400 []
      ∷ []
