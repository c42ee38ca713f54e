-- ===== src/Authz/Roles.antt =====
-- What the check of apps/web/convex/lib/authz.ts lets through, and that the roles form a ladder.
use mathlib.Core.List.{Memᴰ}
use circuit_agent.Prelude.{
  ℕ, ◌≤◌, String, ◌≡◌, refl, sym, ◌∙◌, subst, ap, inl, inr, true, Option, none, some, List, [], ◌∷◌,
  arith, Bool-cases, filter, ok, >>=-returns, eq_iff, All, All-filter, All-Memᴰ,
}
use circuit_agent.Authz.{
  OrganizationRole, owner, admin, member, viewer, Permission, task_create, has_permission,
  MembershipRow, is_of, unique, admit, require_organization_permission,
}

abbrev pub rank : OrganizationRole → ℕ
rank viewer = 0
rank member = 1
rank admin = 2
rank owner = 3

-- Whatever a role may do, every role above it may do.
pub has_permission_mono :
    (lower higher : OrganizationRole) (permission : Permission)
    → rank lower ≤ rank higher
    → has_permission lower permission ≡ true
    → has_permission higher permission ≡ true
unfolding has_permission
has_permission_mono viewer viewer task_create le h = h
has_permission_mono _ _ _ le h = ground arith

-- What the check wants of a member.
pub record IsAdmitted (memberships : List MembershipRow) (identity : Option String)
    (organization_id : ℕ) (permission : Permission) (row : MembershipRow) : Type 0 where
  pub listed : Memᴰ row memberships
  pub authenticated : identity ≡ some row.identity_subject
  pub same_organization : row.organization_id ≡ organization_id
  pub active : row.active ≡ true
  pub permitted : has_permission row.role permission ≡ true

admit-permits :
    (permission : Permission) (found : Option MembershipRow) (row : MembershipRow)
    → admit permission found ≡ ok row
    → (found ≡ some row) × (row.active ≡ true) × (has_permission row.role permission ≡ true)
admit-permits permission none row e = cc
admit-permits permission (some found) row e = elim (Bool-cases found.active) [
  | inr suspended ↦ cc (rw suspended at e)
  | inl active ↦ elim (Bool-cases (has_permission found.role permission)) [
    | inr missing ↦ cc (rw (active, missing) at e)
    | inl permitted ↦
        let same : found ≡ row = cc (rw (active, permitted) at e) in
        subst
          (λ r.
            (some found ≡ some r) × (r.active ≡ true) × (has_permission r.role permission ≡ true))
          same (refl, active, permitted)
  ]
]

unique-holds :
    (P : MembershipRow → Type 0) (rows : List MembershipRow) (row : MembershipRow)
    → unique rows ≡ ok (some row)
    → All P rows
    → P row
unique-holds P [] row e h = cc
unique-holds P (first ∷ []) row e h = let same : first ≡ row = cc e in subst P same h.0
unique-holds P (first ∷ second ∷ rows) row e h = cc

-- Whoever passes the check is an active member of this organization, by the identity of the
-- session, in a role that has the permission.
pub require_organization_permission-IsAdmitted :
    (memberships : List MembershipRow) (identity : Option String) (organization_id : ℕ)
    (permission : Permission) (row : MembershipRow)
    → require_organization_permission memberships identity organization_id permission ≡ ok row
    → IsAdmitted memberships identity organization_id permission row
unfolding require_organization_permission
require_organization_permission-IsAdmitted memberships none organization_id permission row e = cc
require_organization_permission-IsAdmitted memberships (some subject) organization_id permission row
      e =
    let (found, one, admitted) =
      >>=-returns (unique (filter (is_of organization_id subject) memberships)) _ row e in
    let (same, active, permitted) = admit-permits permission found row admitted in
    let (listed, of) =
      unique-holds (λ r. Memᴰ r memberships × (is_of organization_id subject r ≡ true))
        (filter (is_of organization_id subject) memberships) row (one ∙ ap ok same)
        (All-filter (λ r. Memᴰ r memberships) (is_of organization_id subject) memberships
          (All-Memᴰ memberships)) in
    let subjects : row.identity_subject ≡ subject =
      (eq_iff row.identity_subject subject).0 (ground (arith, of)) in
    record {
      listed = listed;
      authenticated = ap some (sym subjects);
      same_organization = ground (arith, of);
      active = active;
      permitted = permitted;
    }
