-- ===== src/Authz.antt =====
-- apps/web/lib/authz.ts and apps/web/convex/lib/authz.ts: which role may do what, and the check that
-- every function that a user can call makes first.
pub mod Roles
mod Examples
use circuit_agent.Prelude.{
  ℕ, String, Bool, true, false, not, Option, none, some, List, [], ◌∷◌, nat_eq, if◌then◌else◌, ◌&&◌,
  any, filter, Result, ok, err, ◌>>=◌, ◌>>◌, throw_if, template, ◌==◌,
}

pub data OrganizationRole : Type 0 where
  owner admin member viewer : OrganizationRole

pub data Permission : Type 0 where
  task_create task_read task_cancel agent_run approval_decide : Permission
  connector_manage skill_manage billing_manage organization_manage : Permission

abbrev pub permission_name : Permission → String
permission_name task_create = "task:create"
permission_name task_read = "task:read"
permission_name task_cancel = "task:cancel"
permission_name agent_run = "agent:run"
permission_name approval_decide = "approval:decide"
permission_name connector_manage = "connector:manage"
permission_name skill_manage = "skill:manage"
permission_name billing_manage = "billing:manage"
permission_name organization_manage = "organization:manage"

abbrev pub role_name : OrganizationRole → String
role_name owner = "owner"
role_name admin = "admin"
role_name member = "member"
role_name viewer = "viewer"

unfoldable pub role_permissions : OrganizationRole → List Permission
role_permissions owner =
    task_create ∷ task_read ∷ task_cancel ∷ agent_run ∷ approval_decide ∷ connector_manage
    ∷ skill_manage ∷ billing_manage ∷ organization_manage ∷ []
role_permissions admin =
    task_create ∷ task_read ∷ task_cancel ∷ agent_run ∷ approval_decide ∷ connector_manage
    ∷ skill_manage ∷ []
role_permissions member = task_create ∷ task_read ∷ task_cancel ∷ agent_run ∷ []
role_permissions viewer = task_read ∷ []

-- `Set.has`, by the names.
unfoldable pub has_permission : OrganizationRole → Permission → Bool
unfolding role_permissions
has_permission role permission =
    any (λ p. permission_name p == permission_name permission) (role_permissions role)

unfoldable pub require_permission : OrganizationRole → Permission → Result (Unit {0})
unfolding has_permission
require_permission role permission =
    throw_if (not (has_permission role permission))
      (template ("Role " ∷ role_name role ∷ " cannot perform " ∷ permission_name permission ∷ []))

unfoldable pub require_same_organization : ℕ → ℕ → Result (Unit {0})
require_same_organization resource actor =
    throw_if (not (nat_eq resource actor)) "Cross-organization access denied"

pub record MembershipRow : Type 0 where
  pub organization_id : ℕ
  pub identity_subject : String
  pub role : OrganizationRole
  pub active : Bool

abbrev pub is_of : ℕ → String → MembershipRow → Bool
is_of organization_id subject row =
    nat_eq row.organization_id organization_id && row.identity_subject == subject

-- `.unique()` throws if there are several.
abbrev pub unique : List MembershipRow → Result (Option MembershipRow)
unique [] = ok none
unique (row ∷ []) = ok (some row)
unique (row ∷ other ∷ rows) = err "unique() query returned more than one result"

abbrev pub admit : Permission → Option MembershipRow → Result MembershipRow
admit permission none = err "Organization access denied"
admit permission (some row) =
    if not row.active
    then err "Organization access denied"
    else if not (has_permission row.role permission)
    then err (template ("Missing permission: " ∷ permission_name permission ∷ []))
    else ok row

abbrev pub admit_subject :
    List MembershipRow → ℕ → Permission → Option String → Result MembershipRow
admit_subject memberships organization_id permission none = err "Unauthenticated"
admit_subject memberships organization_id permission (some subject) = do
  membership ← unique (filter (is_of organization_id subject) memberships)
  admit permission membership

-- The caller's identity is that of the session, if there is one.
unfoldable pub require_organization_permission :
    List MembershipRow → Option String → ℕ → Permission → Result MembershipRow
unfolding has_permission
require_organization_permission memberships identity organization_id permission =
    admit_subject memberships organization_id permission identity
