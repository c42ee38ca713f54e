-- ===== src/Capabilities/Laws.antt =====
-- What apps/web/lib/capability-registry.ts guarantees of a registry and of what it resolves.
use mathlib.Core.List.{Memᴰ}
use circuit_agent.Prelude.{
  String, ◌≡◌, ◌≢◌, sym, arith, any, trim, eq_iff, All-get, All-of_includes, inl, inr, refl, subst,
  Bool, true, false, not, ◌&&◌, Option, none, some, List, [], ◌∷◌, ◌++◌, filter, includes, All,
  All-filter, All-imp, Bool-cases, ok, >>=-returns, ◌==◌,
}
use circuit_agent.Plan.{is_empty}
use circuit_agent.Capabilities.Ids.{IsCapabilityId, is_capability_id_lem}
use circuit_agent.Capabilities.{
  CapabilityManifest, CapabilityRegistry, CapabilityRisk, external_action, CapabilityLayer,
  connector, same_kind, bad_label, TaskKind, has_kind, is_external, is_connector, is_capability_id,
  issue_if, entry_issues, manifest_issues, validate_capability_manifests, new_registry, list_for,
  get_entry, defaults_for, set_entry, checked, select, resolve,
}

-- What a registry guarantees of each entry.
pub record IsSafe (entry : CapabilityManifest) : Type 0 where
  pub well_named : IsCapabilityId entry.id
  pub labelled : (trim entry.label ≢ "") × (trim entry.description ≢ "")
  pub serves : entry.task_kinds ≢ []
  pub defaults : All (λ kind. Memᴰ kind entry.task_kinds) entry.default_for
  pub gated : entry.risk ≡ external_action → entry.requires_approval ≡ true
  pub configured : entry.layer ≡ connector → entry.required_configuration ≢ []

pub same_kind_lem : (a b : TaskKind) → same_kind a b ≡ true → a ≡ b
same_kind_lem a b e = ground (arith, e)

has_kind_lem :
    (kinds : List TaskKind) (kind : TaskKind) → has_kind kinds kind ≡ true → Memᴰ kind kinds
has_kind_lem [] kind h = cc
has_kind_lem (k ∷ kinds) kind h = elim (Bool-cases (same_kind k kind)) [
  | inl same ↦ Memᴰ.head (sym (same_kind_lem k kind same))
  | inr other ↦ Memᴰ.tail (has_kind_lem kinds kind (ground (arith, h, other)))
]

has_kind-All :
    (served kinds : List TaskKind)
    → any (λ kind. not (has_kind served kind)) kinds ≡ false
    → All (λ kind. Memᴰ kind served) kinds
has_kind-All served [] h = tt
has_kind-All served (k ∷ kinds) h =
    (has_kind_lem served k (ground (arith, h)), has_kind-All served kinds (ground (arith, h)))

is_empty-ne {ℓ} : {A : Type ℓ} (xs : List A) → is_empty xs ≡ false → xs ≢ []
is_empty-ne [] e h = cc e
is_empty-ne (x ∷ xs) e h = cc h

is_external_lem :
    (risk : CapabilityRisk) (approval : Bool)
    → (is_external risk && not approval) ≡ false
    → risk ≡ external_action
    → approval ≡ true
is_external_lem risk approval h e = ground (arith, h, e)

is_connector_lem :
    (layer : CapabilityLayer) (names : List String)
    → (is_connector layer && is_empty names) ≡ false
    → layer ≡ connector
    → names ≢ []
is_connector_lem layer names h e = is_empty-ne names (ground (arith, h, e))

true_of_not : (b : Bool) → not b ≡ false → b ≡ true
true_of_not true h = refl
true_of_not false h = cc

is_empty-append :
    (xs ys : List String) → is_empty (xs ++ ys) ≡ true → (is_empty xs ≡ true) × (is_empty ys ≡ true)
is_empty-append [] ys h = (refl, h)
is_empty-append (x ∷ xs) ys h = cc

no_issue :
    (bad : Bool) (message : List String) → is_empty (issue_if bad message) ≡ true → bad ≡ false
no_issue true message h = cc
no_issue false message h = refl

bad_label_lem :
    (entry : CapabilityManifest)
    → bad_label entry ≡ false
    → (trim entry.label ≢ "") × (trim entry.description ≢ "")
bad_label_lem entry h = (
  λ e. ground (arith, h, eq_iff (trim entry.label) "", e),
  λ e. ground (arith, h, eq_iff (trim entry.description) "", e),
)

entry-IsSafe :
    (ids : List String) (entry : CapabilityManifest)
    → is_empty (entry_issues ids entry) ≡ true
    → IsSafe entry × (includes ids entry.id ≡ false)
unfolding entry_issues
entry-IsSafe ids entry h =
    let (h6, connectors) = is_empty-append _ (issue_if _ _) h in
    let (h5, externals) = is_empty-append _ (issue_if _ _) h6 in
    let (h4, defaults) = is_empty-append _ (issue_if _ _) h5 in
    let (h3, kinds) = is_empty-append _ (issue_if _ _) h4 in
    let (h2, labels) = is_empty-append _ (issue_if _ _) h3 in
    let (named, fresh) = is_empty-append _ (issue_if _ _) h2 in
    (
      record {
        well_named =
            is_capability_id_lem entry.id
              (true_of_not (is_capability_id entry.id) (no_issue _ _ named));
        labelled = bad_label_lem entry (no_issue _ _ labels);
        serves = is_empty-ne entry.task_kinds (no_issue _ _ kinds);
        defaults = has_kind-All entry.task_kinds entry.default_for (no_issue _ _ defaults);
        gated = is_external_lem entry.risk entry.requires_approval (no_issue _ _ externals);
        configured =
            is_connector_lem entry.layer entry.required_configuration (no_issue _ _ connectors);
      },
      no_issue _ _ fresh,
    )

-- No entry has an id of the list or of an entry before it.
abbrev AreFresh : List String → List CapabilityManifest → Type 0
AreFresh ids [] = Unit
AreFresh ids (entry ∷ entries) = (includes ids entry.id ≡ false) × AreFresh (entry.id ∷ ids) entries

-- No two entries have one id.
abbrev pub HasDistinctIds : List CapabilityManifest → Type 0
HasDistinctIds [] = Unit
HasDistinctIds (entry ∷ entries) =
    All (λ other. other.id ≢ entry.id) entries × HasDistinctIds entries

fresh-All :
    (ids : List String) (id : String) (entries : List CapabilityManifest)
    → Memᴰ id ids
    → AreFresh ids entries
    → All (λ entry. entry.id ≢ id) entries
fresh-All ids id [] m h = tt
fresh-All ids id (entry ∷ entries) m (fresh, rest) = (
  λ same. All-get (λ x. x ≢ entry.id) id ids m (All-of_includes ids entry.id fresh) (sym same),
  fresh-All (entry.id ∷ ids) id entries (Memᴰ.tail m) rest,
)

fresh-HasDistinctIds :
    (ids : List String) (entries : List CapabilityManifest)
    → AreFresh ids entries
    → HasDistinctIds entries
fresh-HasDistinctIds ids [] h = tt
fresh-HasDistinctIds ids (entry ∷ entries) (fresh, rest) = (
  fresh-All (entry.id ∷ ids) entry.id entries (Memᴰ.head refl) rest,
  fresh-HasDistinctIds (entry.id ∷ ids) entries rest,
)

entries-IsSafe :
    (ids : List String) (entries : List CapabilityManifest)
    → is_empty (manifest_issues entries ids) ≡ true
    → All IsSafe entries × AreFresh ids entries
unfolding manifest_issues
entries-IsSafe ids [] h = (tt, tt)
entries-IsSafe ids (entry ∷ entries) h =
    let (here, later) = is_empty-append (entry_issues ids entry) _ h in
    let (safe, fresh) = entry-IsSafe ids entry here in
    let (all_safe, all_fresh) = entries-IsSafe (entry.id ∷ ids) entries later in
    ((safe, all_safe), (fresh, all_fresh))

-- A registry that can be built has the entries that it was built from, no two of them with one id.
-- Each has an id of the pattern, a label and a description that are not blank, serves a kind of task,
-- is a default only for kinds that it serves, requires approval if its actions are external, and names
-- its configuration if it is a connector.
pub new_registry-IsSafe :
    (entries registry : List CapabilityManifest)
    → new_registry entries ≡ ok registry
    → (registry ≡ entries) × All IsSafe registry × HasDistinctIds registry
unfolding new_registry validate_capability_manifests
new_registry-IsSafe entries registry e = elim (Bool-cases (is_empty (manifest_issues entries []))) [
  | inr issues ↦ cc (rw (issues, new_registry, validate_capability_manifests) at e)
  | inl sound ↦
      let same : entries ≡ registry =
        cc (rw (sound, new_registry, validate_capability_manifests) at e) in
      let (safe, fresh) = entries-IsSafe [] entries sound in
      subst (λ r. (r ≡ entries) × All IsSafe r × HasDistinctIds r) same
        (refl, safe, fresh-HasDistinctIds [] entries fresh)
]

abbrev pub Supports : TaskKind → CapabilityManifest → Type 0
Supports kind entry = has_kind entry.task_kinds kind ≡ true

set_entry-Supports :
    (kind : TaskKind) (selected : List CapabilityManifest) (entry : CapabilityManifest)
    → All (Supports kind) selected
    → Supports kind entry
    → All (Supports kind) (set_entry selected entry)
unfolding set_entry
set_entry-Supports kind [] entry h k = (k, tt)
set_entry-Supports kind (old ∷ selected) entry h k = elim (Bool-cases (old.id == entry.id)) [
  | inl same ↦ rw same (k, h.1)
  | inr other ↦ rw other (h.0, set_entry-Supports kind selected entry h.1 k)
]

checked-Supports :
    (kind : TaskKind) (id : String) (found : Option CapabilityManifest) (entry : CapabilityManifest)
    → checked kind id found ≡ ok entry
    → Supports kind entry
checked-Supports kind id none entry e = cc
checked-Supports kind id (some candidate) entry e =
    elim (Bool-cases (has_kind candidate.task_kinds kind)) [
      | inl supported ↦
          let same : candidate ≡ entry = cc (rw supported at e) in
          subst (Supports kind) same supported
      | inr other ↦ cc (rw other at e)
    ]

select-Supports :
    (entries : CapabilityRegistry) (kind : TaskKind) (ids : List String)
    (before after : List CapabilityManifest)
    → All (Supports kind) before
    → select entries kind ids before ≡ ok after
    → All (Supports kind) after
unfolding select
select-Supports entries kind [] before after h e =
    let same : before ≡ after = cc e in subst (All (Supports kind)) same h
select-Supports entries kind (id ∷ ids) before after h e =
    let (entry, found, rest) = >>=-returns (checked kind id (get_entry entries id)) _ after e in
    select-Supports entries kind ids (set_entry before entry) after
      (set_entry-Supports kind before entry h
        (checked-Supports kind id (get_entry entries id) entry found))
      rest

defaults_for-Supports :
    (entries : CapabilityRegistry) (kind : TaskKind)
    → All (Supports kind) (defaults_for entries kind)
unfolding defaults_for list_for
defaults_for-Supports entries kind =
    let serving = filter (λ entry. has_kind entry.task_kinds kind) entries in
    All-imp _ (filter (λ entry. has_kind entry.default_for kind) serving) (λ entry h. h.0)
      (All-filter (Supports kind) (λ entry. has_kind entry.default_for kind) serving
        (All-imp _ serving (λ entry h. h.1)
          (All-filter (λ entry. Unit {0}) (λ entry. has_kind entry.task_kinds kind) entries
            (everything entries))))
  where
    everything : (list : List CapabilityManifest) → All (λ entry. Unit {0}) list
    everything [] = tt
    everything (entry ∷ list) = (tt, everything list)

-- Whatever ids are asked for, all that is resolved for a kind of task supports that kind.
pub resolve-Supports :
    (entries : CapabilityRegistry) (kind : TaskKind) (requested_ids : List String)
    (resolved : List CapabilityManifest)
    → resolve entries kind requested_ids ≡ ok resolved
    → All (Supports kind) resolved
unfolding resolve
resolve-Supports entries kind requested_ids resolved e =
    select-Supports entries kind requested_ids (defaults_for entries kind) resolved
      (defaults_for-Supports entries kind) e
