-- ===== src/Authz/Defs.antt =====
-- apps/api/internal/authz/authz.go: its checks, on the rows of the tables that its queries name.
use dev_plane.Prelude.{
  Bool, false, ◌&&◌, not, Option, none, some, List, [], ◌∷◌, ◌++◌, Result, ok, err, ◌>>=◌, ◌>>◌,
  fail_if, is_empty, if◌then◌else◌, any,
}
use dev_plane.Text.{Text, codes, text_eq, mem_text}

-- A row, of which only these columns are asked for. `parent` is the key of the row that it belongs to;
-- a column that a table does not have is not used.
pub record Row : Type 0 where
  pub id : Text
  pub parent : Text
  pub organization_id : Option Text
  pub deleted : Bool

-- The tables, and whether the database fails on a query.
pub record Database : Type 0 where
  pub users : List Row
  pub projects : List Row
  pub repositories : List Row
  pub tasks : List Row
  pub workspaces : List Row
  pub agent_runs : List Row
  pub approvals : List Row
  pub pull_requests : List Row
  pub secret_references : List Row
  pub integrations : List Row
  pub policies : List Row
  pub artifacts : List Row
  pub failure : Option Text

-- auth.Claims, of which only these fields are read
pub record Claims : Type 0 where
  pub user_id : Text
  pub org_id : Text

pub data AuthzError : Type 0 where
  not_found : AuthzError
  query_failed : Text → AuthzError
  null_owner : AuthzError
  unsupported_lookup : Text → Text → AuthzError

-- `WHERE id = $1`
unfoldable pub with_id : Text → List Row → List Row
with_id id [] = []
with_id id (r ∷ rs) = let rest = with_id id rs in if text_eq r.id id then r ∷ rest else rest

-- `deleted_at IS NULL`
unfoldable pub live : List Row → List Row
live [] = []
live (r ∷ rs) = let rest = live rs in if r.deleted then rest else r ∷ rest

-- `JOIN parents p ON p.id = r.parent`: the parents of the rows
unfoldable pub parents_of : List Row → List Row → List Row
unfolding with_id
parents_of parents [] = []
parents_of parents (r ∷ rs) = with_id r.parent parents ++ parents_of parents rs

-- `QueryRowContext` and `Scan` of the owner: the first row, if there is one
unfoldable pub first_owner : Database → List Row → Result AuthzError Text
first_owner db rows = elim db.failure [
  | some e ↦ err (query_failed e)
  | none ↦ elim rows [
    | [] ↦ err not_found
    | r ∷ rs ↦ elim r.organization_id [ none ↦ err null_owner | some org ↦ ok org ]
  ]
]

-- the comparison at the end of each check
unfoldable pub check_owner : Claims → Result AuthzError Text → Result AuthzError (Unit {0})
check_owner user owner = owner >>= λ org. fail_if (not (text_eq org user.org_id)) not_found

unfoldable pub authorize_organization : Database → Claims → Text → Result AuthzError (Unit {0})
unfolding any
authorize_organization db user org = fail_if (is_empty user.org_id) not_found >> (elim db.failure [
  | some e ↦ err (query_failed e)
  | none ↦
      fail_if
        (not (
          any
            (λ (r : Row).
              text_eq r.id user.user_id
              && (elim r.organization_id [ none ↦ false | some o ↦ text_eq o org ])
              && not r.deleted)
            db.users))
        not_found
])

-- the tables of `allowedAuthzColumns`, each with the column `id`
abbrev pub allowed_tables : List Text
allowed_tables =
    codes "projects"
    ∷ codes "secret_references"
    ∷ codes "integrations"
    ∷ codes "policies"
    ∷ codes "artifacts"
    ∷ []

unfoldable pub is_allowed_authz_column : Text → Text → Bool
is_allowed_authz_column table column = mem_text table allowed_tables && text_eq column (codes "id")

-- `authorizeByColumn`, on the rows of the table that it names
unfoldable pub authorize_by_column :
    Database → Claims → Text → List Row → Text → Text → Result AuthzError (Unit {0})
unfolding is_allowed_authz_column with_id first_owner check_owner
authorize_by_column db user table rows column value =
    fail_if (not (is_allowed_authz_column table column)) (unsupported_lookup table column)
    >> check_owner user (first_owner db (with_id value rows))

-- the resources that a check is for
pub data Resource : Type 0 where
  project repository task workspace agent_run approval pull_request : Resource
  secret integration policy artifact : Resource

-- `AuthorizeProject` and the other checks, by the resource
unfoldable pub authorize : Resource → Database → Claims → Text → Result AuthzError (Unit {0})
unfolding authorize_by_column live parents_of
authorize project db user id =
    authorize_by_column db user (codes "projects") db.projects (codes "id") id
authorize repository db user id =
    check_owner user
      (first_owner db (live (parents_of db.projects (live (with_id id db.repositories)))))
authorize task db user id =
    check_owner user (first_owner db (live (parents_of db.projects (live (with_id id db.tasks)))))
authorize workspace db user id = check_owner user (
    first_owner db (
      live (parents_of db.projects (live (parents_of db.repositories (with_id id db.workspaces))))))
authorize agent_run db user id = check_owner user (
    first_owner db
      (live (parents_of db.projects (live (parents_of db.tasks (with_id id db.agent_runs))))))
authorize approval db user id = check_owner user (
    first_owner db
      (live (parents_of db.projects (live (parents_of db.tasks (with_id id db.approvals))))))
authorize pull_request db user id = check_owner user (
    first_owner db (
      live
        (parents_of db.projects (live (parents_of db.repositories (with_id id db.pull_requests))))))
authorize secret db user id =
    authorize_by_column db user (codes "secret_references") db.secret_references (codes "id") id
authorize integration db user id =
    authorize_by_column db user (codes "integrations") db.integrations (codes "id") id
authorize policy db user id =
    authorize_by_column db user (codes "policies") db.policies (codes "id") id
authorize artifact db user id =
    authorize_by_column db user (codes "artifacts") db.artifacts (codes "id") id
