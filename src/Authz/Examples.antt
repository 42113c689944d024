-- ===== src/Authz/Examples.antt =====
-- Tables of an organization and a theorem at these inputs.
use dev_plane.Prelude.{true, false, ◌≡◌, refl, none, some, [], ◌∷◌, ok}
use dev_plane.Text.{codes, mem_text, text_eq}
use dev_plane.Authz.Defs.{
  Row, Database, Claims, with_id, live, parents_of, first_owner, check_owner, authorize_by_column,
  is_allowed_authz_column, authorize, project, task,
}
use dev_plane.Authz.Tenancy.{Owns, authorize-Owns}

abbrev live_project : Row
live_project = record {
  id = codes "p";
  parent = [];
  organization_id = some (codes "org");
  deleted = false;
}

abbrev old_project : Row
old_project = record {
  id = codes "q";
  parent = [];
  organization_id = some (codes "org");
  deleted = true;
}

abbrev a_task : Row
a_task = record { id = codes "t"; parent = codes "p"; organization_id = none; deleted = false }

abbrev db : Database
db = record {
  users = [];
  projects = live_project ∷ old_project ∷ [];
  repositories = [];
  tasks = a_task ∷ [];
  workspaces = [];
  agent_runs = [];
  approvals = [];
  pull_requests = [];
  secret_references = [];
  integrations = [];
  policies = [];
  artifacts = [];
  failure = none;
}

abbrev user : Claims
user = record { user_id = codes "u"; org_id = codes "org" }

task_allowed : authorize task db user (codes "t") ≡ ok tt
unfolding authorize with_id live parents_of first_owner check_owner text_eq
task_allowed = refl

-- The check of a project, unlike those of what belongs to it, lets the user at a deleted one.
deleted_allowed : authorize project db user (codes "q") ≡ ok tt
unfolding authorize authorize_by_column is_allowed_authz_column with_id first_owner check_owner
    mem_text text_eq
deleted_allowed = refl

authorize-Owns_example : Owns task db (codes "t") (codes "org")
authorize-Owns_example = authorize-Owns task db user (codes "t") task_allowed
