-- ===== src/Policies/Roles.antt =====
-- packages/policies/rbac.go: what the roles may do.
use dev_plane.Prelude.{true, false, ◌≡◌, refl, none, some}
use dev_plane.Text.{Text, codes, text_eq}
use dev_plane.Policies.Defs.{User}
use dev_plane.Policies.Rbac.{has_role, rbac_config, can, is_admin}

-- An owner may do everything, and a user of an unknown role nothing.
pub can_extremes :
    (u : User) (resource_type action : Text)
    → (u.role ≡ codes "owner" → can (some u) resource_type action ≡ true)
      × (rbac_config u.role ≡ none → can (some u) resource_type action ≡ false)
unfolding can text_eq
can_extremes u resource_type action = (λ e. rw (can, e) refl, λ e. rw (can, e) refl)

-- The permissions are not inherited: a member may do anything with a task, an admin nothing, though
-- the admin passes as one of the rank of an admin.
can-task_inverted :
    (member admin : User) (action : Text)
    → member.role ≡ codes "member"
    → admin.role ≡ codes "admin"
    → (can (some member) (codes "task") action ≡ true)
      × (can (some admin) (codes "task") action ≡ false)
      × (is_admin (some admin) ≡ true)
unfolding can text_eq is_admin has_role
can-task_inverted member admin action m a =
    (rw (can, m) refl, rw (can, a) refl, rw (has_role, a) refl)
