-- ===== src/Authz/Examples.antt =====
-- A member of one organization.
use circuit_agent.Prelude.{◌≡◌, refl, true, some, [], ◌∷◌, ok}
use circuit_agent.Authz.{member, MembershipRow, task_create, require_organization_permission}
use circuit_agent.Authz.Roles.{IsAdmitted, require_organization_permission-IsAdmitted}

abbrev ann : MembershipRow
ann = record { organization_id = 7; identity_subject = "ann"; role = member; active = true }

ann_may_create : require_organization_permission (ann ∷ []) (some "ann") 7 task_create ≡ ok ann
unfolding require_organization_permission
ann_may_create = refl

require_organization_permission-IsAdmitted_example :
    IsAdmitted (ann ∷ []) (some "ann") 7 task_create ann
require_organization_permission-IsAdmitted_example =
    require_organization_permission-IsAdmitted (ann ∷ []) (some "ann") 7 task_create ann
      ann_may_create
