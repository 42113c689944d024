-- ===== src/Policies/Rbac.antt =====
-- packages/policies/rbac.go: roles and their permissions.
use Prim.Native.String.{String}
use dev_plane.Prelude.{
  ℕ, Bool, false, ◌||◌, ◌&&◌, Option, none, some, List, [], ◌∷◌, any, all, leb, if◌then◌else◌,
}
use dev_plane.Text.{Text, codes, text_eq}
use dev_plane.Policies.Defs.{User}

pub record Permission : Type 0 where
  pub resource_type : Text
  pub action : Text

abbrev pub permission : String → String → Permission
permission resource_type action = record {
  resource_type = codes resource_type;
  action = codes action;
}

-- `RoleRank`
unfoldable pub role_rank : Text → Option ℕ
role_rank role =
    if text_eq role (codes "member")
    then some 0
    else if text_eq role (codes "admin")
    then some 1
    else if text_eq role (codes "owner")
    then some 2
    else none

unfoldable pub owner_permissions : List Permission
owner_permissions = permission "*" "*" ∷ []

unfoldable pub admin_permissions : List Permission
admin_permissions =
    permission "file" "read"
    ∷ permission "file" "write"
    ∷ permission "command" "read"
    ∷ permission "command" "execute"
    ∷ permission "git" "*"
    ∷ permission "network" "read"
    ∷ permission "deploy" "read"
    ∷ permission "deploy" "execute"
    ∷ permission "secret" "read"
    ∷ permission "secret" "write"
    ∷ permission "organization" "read"
    ∷ permission "organization" "write"
    ∷ permission "project" "*"
    ∷ permission "user" "*"
    ∷ permission "policy" "*"
    ∷ permission "audit" "read"
    ∷ permission "integration" "*"
    ∷ []

unfoldable pub member_permissions : List Permission
member_permissions =
    permission "file" "read"
    ∷ permission "file" "write"
    ∷ permission "command" "read"
    ∷ permission "git" "read"
    ∷ permission "git" "write"
    ∷ permission "network" "read"
    ∷ permission "project" "read"
    ∷ permission "task" "*"
    ∷ permission "repository" "read"
    ∷ []

-- `RBACConfig`
unfoldable pub rbac_config : Text → Option (List Permission)
unfolding owner_permissions admin_permissions member_permissions
rbac_config role =
    if text_eq role (codes "owner")
    then some owner_permissions
    else if text_eq role (codes "admin")
    then some admin_permissions
    else if text_eq role (codes "member")
    then some member_permissions
    else none

unfoldable pub has_role : Option User → Text → Bool
unfolding role_rank
has_role none min_role = false
has_role (some user) min_role = elim (role_rank user.role) [
  | none ↦ false
  | some user_rank ↦ elim (role_rank min_role) [
    | none ↦ false
    | some min_rank ↦ leb min_rank user_rank
  ]
]

-- the three tests of the loop of `Can`
unfoldable pub grants : Text → Text → Permission → Bool
grants resource_type action p =
    text_eq p.resource_type (codes "*") && (text_eq p.action (codes "*") || text_eq p.action action)
    || text_eq p.resource_type resource_type
      && (text_eq p.action (codes "*") || text_eq p.action action)
    || text_eq p.resource_type resource_type && text_eq p.action action

unfoldable pub can : Option User → Text → Text → Bool
unfolding rbac_config grants any
can none resource_type action = false
can (some user) resource_type action = elim (rbac_config user.role) [
  | none ↦ false
  | some perms ↦ any (grants resource_type action) perms
]

unfoldable pub can_any : Option User → List Permission → Bool
unfolding any
can_any user perms = any (λ p. can user p.resource_type p.action) perms

unfoldable pub can_all : Option User → List Permission → Bool
unfolding all
can_all user perms = all (λ p. can user p.resource_type p.action) perms

unfoldable pub is_owner : Option User → Bool
is_owner none = false
is_owner (some user) = text_eq user.role (codes "owner")

unfoldable pub is_admin : Option User → Bool
is_admin user = has_role user (codes "admin")

unfoldable pub get_permissions_for_role : Text → List Permission
unfolding rbac_config
get_permissions_for_role role = elim (rbac_config role) [ none ↦ [] | some perms ↦ perms ]
