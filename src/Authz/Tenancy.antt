-- ===== src/Authz/Tenancy.antt =====
-- apps/api/internal/authz/authz.go: only the organization that owns a resource gets at it.
use mathlib.Core.List.{Memᴰ}
use dev_plane.Prelude.{
  false, ◌≡◌, refl, ◌∙◌, ap, subst, ◌⊎◌, inl, inr, none, some, List, [], ◌∷◌, ◌++◌, ok, >>=-eq-ok,
  not-err-ok, arith, Bool-cases, Option-cases,
}
use dev_plane.Text.{Text, codes, text_eq, text_eq_iff}
use dev_plane.Authz.Defs.{
  Row, Database, Claims, Resource, with_id, live, parents_of, first_owner, check_owner,
  authorize_by_column, authorize, project, repository, task, workspace, agent_run, approval,
  pull_request, secret, integration, policy, artifact,
}

uncons : {A : Type 0} {a x : A} {xs : List A} → Memᴰ a (x ∷ xs) → (a ≡ x) ⊎ Memᴰ a xs
uncons (Memᴰ.head e) = inl e
uncons (Memᴰ.tail i) = inr i

with_id-mem :
    (id : Text) (rows : List Row) {r : Row} → Memᴰ r (with_id id rows) → Memᴰ r rows × (r.id ≡ id)
unfolding with_id
with_id-mem id [] i = elim i [ ]
with_id-mem id (x ∷ rows) {r = r} i = elim (Bool-cases (text_eq x.id id)) [
  | inl e ↦ elim (uncons (rw (with_id, e) at i)) [
    | inl same ↦ (Memᴰ.head same, ap (λ (y : Row). y.id) same ∙ (text_eq_iff x.id id).0 e)
    | inr j ↦ let (k, l) = with_id-mem id rows j in (Memᴰ.tail k, l)
  ]
  | inr e ↦ let (k, l) = with_id-mem id rows (rw (with_id, e) at i) in (Memᴰ.tail k, l)
]

live_cons : (x : Row) (rows : List Row) → x.deleted ≡ false → live (x ∷ rows) ≡ x ∷ live rows
unfolding live
live_cons x rows e = ground arith

live-mem : (rows : List Row) {r : Row} → Memᴰ r (live rows) → Memᴰ r rows × (r.deleted ≡ false)
unfolding live
live-mem [] i = elim i [ ]
live-mem (x ∷ rows) {r = r} i = elim (Bool-cases x.deleted) [
  | inl e ↦ let (k, l) = live-mem rows (rw (live, e) at i) in (Memᴰ.tail k, l)
  | inr e ↦ elim (uncons (subst (Memᴰ r) (live_cons x rows e) i)) [
    | inl same ↦ (Memᴰ.head same, ap (λ (y : Row). y.deleted) same ∙ e)
    | inr j ↦ let (k, l) = live-mem rows j in (Memᴰ.tail k, l)
  ]
]

append-mem : {A : Type 0} (xs ys : List A) {a : A} → Memᴰ a (xs ++ ys) → Memᴰ a xs ⊎ Memᴰ a ys
append-mem [] ys i = inr i
append-mem (x ∷ xs) ys (Memᴰ.head e) = inl (Memᴰ.head e)
append-mem (x ∷ xs) ys (Memᴰ.tail i) = elim (append-mem xs ys i) [
  | inl j ↦ inl (Memᴰ.tail j)
  | inr j ↦ inr j
]

parents_of-mem :
    (parents rows : List Row) {p : Row}
    → Memᴰ p (parents_of parents rows)
    → Memᴰ p parents × ((r : Row) × Memᴰ r rows × (p.id ≡ r.parent))
unfolding parents_of
parents_of-mem parents [] i = elim i [ ]
parents_of-mem parents (x ∷ rows) i = elim (append-mem (with_id x.parent parents) _ i) [
  | inl j ↦ let (k, e) = with_id-mem x.parent parents j in (k, (x, Memᴰ.head refl, e))
  | inr j ↦ let (k, (r, l, e)) = parents_of-mem parents rows j in (k, (r, Memᴰ.tail l, e))
]

-- a row of the table has this key
abbrev pub Keyed : List Row → Text → Row → Type 0
Keyed rows id r = Memᴰ r rows × (r.id ≡ id)

-- a row of the table that is not deleted
abbrev pub Live : List Row → Text → Row → Type 0
Live rows id r = Memᴰ r rows × (r.id ≡ id) × (r.deleted ≡ false)

-- the organization owns the project, which is not deleted
abbrev pub OwnsProject : Database → Text → Text → Type 0
OwnsProject db id org = (p : Row) × Live db.projects id p × (p.organization_id ≡ some org)

-- the organization owns the row itself
abbrev pub OwnsRow : List Row → Text → Text → Type 0
OwnsRow rows id org = (r : Row) × Keyed rows id r × (r.organization_id ≡ some org)

-- the row belongs to a project of the organization
abbrev pub OwnsChild : Database → List Row → Text → Text → Type 0
OwnsChild db rows id org = (r : Row) × Live rows id r × OwnsProject db r.parent org

-- the row belongs to a row of `mids`, and this to a project of the organization
abbrev pub OwnsGrandchild : Database → List Row → List Row → Text → Text → Type 0
OwnsGrandchild db rows mids id org = (r : Row) × Keyed rows id r × OwnsChild db mids r.parent org

-- the organization owns the resource with the id
abbrev pub Owns : Resource → Database → Text → Text → Type 0
Owns project db id org = OwnsRow db.projects id org
Owns repository db id org = OwnsChild db db.repositories id org
Owns task db id org = OwnsChild db db.tasks id org
Owns workspace db id org = OwnsGrandchild db db.workspaces db.repositories id org
Owns agent_run db id org = OwnsGrandchild db db.agent_runs db.tasks id org
Owns approval db id org = OwnsGrandchild db db.approvals db.tasks id org
Owns pull_request db id org = OwnsGrandchild db db.pull_requests db.repositories id org
Owns secret db id org = OwnsRow db.secret_references id org
Owns integration db id org = OwnsRow db.integrations id org
Owns policy db id org = OwnsRow db.policies id org
Owns artifact db id org = OwnsRow db.artifacts id org

owned : (user : Claims) (org : Text) → check_owner user (ok org) ≡ ok tt → org ≡ user.org_id
unfolding check_owner
owned user org h = (text_eq_iff org user.org_id).0 (ground arith)

from_rows :
    (db : Database) (user : Claims) (rows : List Row)
    → db.failure ≡ none
    → check_owner user (first_owner db rows) ≡ ok tt
    → (r : Row) × Memᴰ r rows × (r.organization_id ≡ some user.org_id)
unfolding check_owner first_owner
from_rows db user [] e h = absurd (not-err-ok (rw (check_owner, first_owner, e) at h))
from_rows db user (r ∷ rows) e h = elim (Option-cases r.organization_id) [
  | inl null ↦ absurd (not-err-ok (rw (check_owner, first_owner, e, null) at h))
  | inr (org, there) ↦
      (r, Memᴰ.head refl, there ∙ ap some (owned user org (rw (first_owner, e, there) at h)))
]

checked-row :
    (db : Database) (user : Claims) (rows : List Row)
    → check_owner user (first_owner db rows) ≡ ok tt
    → (r : Row) × Memᴰ r rows × (r.organization_id ≡ some user.org_id)
unfolding check_owner first_owner
checked-row db user rows h = elim (Option-cases db.failure) [
  | inr (x, e) ↦ absurd (not-err-ok (rw (check_owner, first_owner, e) at h))
  | inl e ↦ from_rows db user rows e h
]

module _ (db : Database) (user : Claims) (id : Text) where
  column-Owns :
      (table : Text) (rows : List Row)
      → authorize_by_column db user table rows (codes "id") id ≡ ok tt
      → OwnsRow rows id user.org_id
  unfolding authorize_by_column
  column-Owns table rows h =
      let (u, allowed, rest) =
        >>=-eq-ok _ (λ _. check_owner user (first_owner db (with_id id rows))) h in
      let (r, i, o) = checked-row db user (with_id id rows) rest in (r, with_id-mem id rows i, o)

  child-Owns :
      (rows : List Row)
      → check_owner user (first_owner db (live (parents_of db.projects (live (with_id id rows)))))
        ≡ ok tt
      → OwnsChild db rows id user.org_id
  child-Owns rows h =
      let (p, i, o) = checked-row db user _ h in
      let (j, alive) = live-mem (parents_of db.projects (live (with_id id rows))) i in
      let (k, (r, l, e)) = parents_of-mem db.projects (live (with_id id rows)) j in
      let (m, here) = live-mem (with_id id rows) l in
      let (n, same) = with_id-mem id rows m in (r, (n, same, here), (p, (k, e, alive), o))

  grandchild-Owns :
      (rows mids : List Row)
      → check_owner user (
          first_owner db (live (parents_of db.projects (live (parents_of mids (with_id id rows))))))
        ≡ ok tt
      → OwnsGrandchild db rows mids id user.org_id
  grandchild-Owns rows mids h =
      let (p, i, o) = checked-row db user _ h in
      let (j, alive) =
        live-mem (parents_of db.projects (live (parents_of mids (with_id id rows)))) i in
      let (k, (r, l, e)) =
        parents_of-mem db.projects (live (parents_of mids (with_id id rows))) j in
      let (m, here) = live-mem (parents_of mids (with_id id rows)) l in
      let (n, (c, q, same)) = parents_of-mem mids (with_id id rows) m in
      let (t, keyed) = with_id-mem id rows q in
      (c, (t, keyed), (r, (n, same, here), (p, (k, e, alive), o)))

-- Tenants are kept apart: a check of this package lets a user at a resource only if the user's
-- organization owns it, by the row of the resource itself or through the repository or task and the
-- project that it belongs to, which then are not deleted.
pub authorize-Owns :
    (kind : Resource) (db : Database) (user : Claims) (id : Text)
    → authorize kind db user id ≡ ok tt
    → Owns kind db id user.org_id
unfolding authorize
authorize-Owns project db user id h = column-Owns db user id (codes "projects") db.projects h
authorize-Owns repository db user id h = child-Owns db user id db.repositories h
authorize-Owns task db user id h = child-Owns db user id db.tasks h
authorize-Owns workspace db user id h = grandchild-Owns db user id db.workspaces db.repositories h
authorize-Owns agent_run db user id h = grandchild-Owns db user id db.agent_runs db.tasks h
authorize-Owns approval db user id h = grandchild-Owns db user id db.approvals db.tasks h
authorize-Owns pull_request db user id h =
    grandchild-Owns db user id db.pull_requests db.repositories h
authorize-Owns secret db user id h =
    column-Owns db user id (codes "secret_references") db.secret_references h
authorize-Owns integration db user id h =
    column-Owns db user id (codes "integrations") db.integrations h
authorize-Owns policy db user id h = column-Owns db user id (codes "policies") db.policies h
authorize-Owns artifact db user id h = column-Owns db user id (codes "artifacts") db.artifacts h
