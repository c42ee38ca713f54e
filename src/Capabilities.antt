-- ===== src/Capabilities.antt =====
-- apps/web/lib/capability-registry.ts: what a task of a kind may use, and what that needs.
pub mod Manifests
pub mod Ids
pub mod Laws
mod Examples
use Prim.Native.Char.{Char, code}
use Prim.Native.String
use circuit_agent.Prelude.{
  ℕ, String, Bool, true, false, not, ◌&&◌, ◌||◌, Option, none, some, List, [], ◌∷◌, ◌++◌, map, leb,
  nat_eq, if◌then◌else◌, find, filter, any, all, includes, Result, ok, err, ◌>>=◌, ◌>>◌, throw_if,
  template, trim, is_blank, ◌==◌,
}
use circuit_agent.Plan.{is_empty}

pub data TaskKind : Type 0 where
  coding research writing operations : TaskKind

pub data CapabilityLayer : Type 0 where
  core skill connector : CapabilityLayer

pub data CapabilityRisk : Type 0 where
  observe modify_workspace external_action : CapabilityRisk

pub data CapabilityRuntime : Type 0 where
  model coding browser data_runtime external : CapabilityRuntime

pub record CapabilityManifest : Type 0 where
  pub id : String
  pub label : String
  pub description : String
  pub layer : CapabilityLayer
  pub task_kinds : List TaskKind
  pub runtime : CapabilityRuntime
  pub risk : CapabilityRisk
  pub default_for : List TaskKind
  pub requires_approval : Bool
  pub required_configuration : List String

pub record CapabilityAvailability : Type 0 where
  pub capability : CapabilityManifest
  pub available : Bool
  pub missing_configuration : List String

abbrev pub same_kind : TaskKind → TaskKind → Bool
same_kind TaskKind.coding TaskKind.coding = true
same_kind research research = true
same_kind writing writing = true
same_kind operations operations = true
same_kind _ _ = false

abbrev pub kind_name : TaskKind → String
kind_name TaskKind.coding = "coding"
kind_name research = "research"
kind_name writing = "writing"
kind_name operations = "operations"

abbrev pub has_kind : List TaskKind → TaskKind → Bool
has_kind kinds kind = any (λ k. same_kind k kind) kinds

abbrev pub is_connector : CapabilityLayer → Bool
is_connector connector = true
is_connector _ = false

abbrev pub is_external : CapabilityRisk → Bool
is_external external_action = true
is_external _ = false

-- `/^[a-z][a-z0-9]*(?:[._-][a-z0-9]+)+$/` as an automaton: before the first letter, in the first
-- word, after a separator, in a later word.
pub data Scan : Type 0 where
  start first separated later : Scan

abbrev pub is_lower : Char → Bool
is_lower c = leb 97 (code c) && leb (code c) 122

abbrev pub is_lower_or_digit : Char → Bool
is_lower_or_digit c = is_lower c || (leb 48 (code c) && leb (code c) 57)

abbrev pub is_separator : Char → Bool
is_separator c = nat_eq (code c) 46 || nat_eq (code c) 95 || nat_eq (code c) 45

abbrev pub scan : Scan → Char → Option Scan
scan start c = if is_lower c then some first else none
scan first c =
    if is_lower_or_digit c then some first else if is_separator c then some separated else none
scan separated c = if is_lower_or_digit c then some later else none
scan later c =
    if is_lower_or_digit c then some later else if is_separator c then some separated else none

unfoldable pub scan_all : Option Scan → String → Bool
scan_all none s = false
scan_all (some later) String.[] = true
scan_all (some state) String.[] = false
scan_all (some state) (String.◌∷◌ c s) = scan_all (scan state c) s

unfoldable pub is_capability_id : String → Bool
unfolding scan_all
is_capability_id id = scan_all (some start) id

-- `if (bad) issues.push(message)`.
abbrev pub issue_if : Bool → List String → List String
issue_if true message = template message ∷ []
issue_if false message = []

abbrev pub bad_label : CapabilityManifest → Bool
bad_label entry = is_blank (trim entry.label) || is_blank (trim entry.description)

abbrev pub bad_default : CapabilityManifest → Bool
bad_default entry = any (λ kind. not (has_kind entry.task_kinds kind)) entry.default_for

unfoldable pub entry_issues : List String → CapabilityManifest → List String
unfolding is_capability_id
entry_issues ids entry =
    issue_if (not (is_capability_id entry.id)) ("invalid capability id " ∷ entry.id ∷ [])
    ++ issue_if (includes ids entry.id) ("duplicate capability id " ∷ entry.id ∷ [])
    ++ issue_if (bad_label entry) ("capability " ∷ entry.id ∷ " needs a label and description" ∷ [])
    ++ issue_if (is_empty entry.task_kinds)
        ("capability " ∷ entry.id ∷ " supports no task kinds" ∷ [])
    ++ issue_if (bad_default entry)
        ("capability " ∷ entry.id ∷ " has an invalid default task kind" ∷ [])
    ++ issue_if (is_external entry.risk && not entry.requires_approval)
        ("external capability " ∷ entry.id ∷ " must require approval" ∷ [])
    ++ issue_if (is_connector entry.layer && is_empty entry.required_configuration)
        ("connector " ∷ entry.id ∷ " must declare configuration gates" ∷ [])

unfoldable pub manifest_issues : List CapabilityManifest → List String → List String
unfolding entry_issues
manifest_issues [] ids = []
manifest_issues (entry ∷ entries) ids =
    entry_issues ids entry ++ manifest_issues entries (entry.id ∷ ids)

unfoldable pub validate_capability_manifests : List CapabilityManifest → List String
unfolding manifest_issues
validate_capability_manifests entries = manifest_issues entries []

unfoldable pub join_issues : List String → String
join_issues [] = ""
join_issues (x ∷ []) = x
join_issues (x ∷ y ∷ xs) = template (x ∷ "; " ∷ join_issues (y ∷ xs) ∷ [])

-- The map of a registry is the list of its entries, whose ids are distinct.
abbrev pub CapabilityRegistry : Type 0
CapabilityRegistry = List CapabilityManifest

unfoldable pub new_registry : List CapabilityManifest → Result CapabilityRegistry
unfolding validate_capability_manifests join_issues
new_registry entries =
    let issues = validate_capability_manifests entries in
    if is_empty issues
    then ok entries
    else err (template ("Invalid capability registry: " ∷ join_issues issues ∷ []))

unfoldable pub list_for : CapabilityRegistry → Option TaskKind → List CapabilityManifest
list_for entries none = entries
list_for entries (some kind) = filter (λ entry. has_kind entry.task_kinds kind) entries

abbrev pub get_entry : CapabilityRegistry → String → Option CapabilityManifest
get_entry entries id = find (λ entry. entry.id == id) entries

unfoldable pub defaults_for : CapabilityRegistry → TaskKind → List CapabilityManifest
unfolding list_for
defaults_for entries kind =
    filter (λ entry. has_kind entry.default_for kind) (list_for entries (some kind))

-- `selected.set(id, entry)`: an entry keeps its place.
unfoldable pub set_entry : List CapabilityManifest → CapabilityManifest → List CapabilityManifest
set_entry [] entry = entry ∷ []
set_entry (old ∷ selected) entry =
    let rest = set_entry selected entry in
    if old.id == entry.id then entry ∷ selected else old ∷ rest

abbrev pub checked : TaskKind → String → Option CapabilityManifest → Result CapabilityManifest
checked kind id none = err (template ("Unknown capability: " ∷ id ∷ []))
checked kind id (some entry) =
    if has_kind entry.task_kinds kind
    then ok entry
    else err (template ("Capability " ∷ id ∷ " does not support " ∷ kind_name kind ∷ " tasks" ∷ []))

-- The loop over the requested ids.
unfoldable pub select :
    CapabilityRegistry
    → TaskKind
    → List String
    → List CapabilityManifest
    → Result (List CapabilityManifest)
unfolding set_entry
select entries kind [] selected = ok selected
select entries kind (id ∷ ids) selected = do
  entry ← checked kind id (get_entry entries id)
  select entries kind ids (set_entry selected entry)

unfoldable pub resolve :
    CapabilityRegistry → TaskKind → List String → Result (List CapabilityManifest)
unfolding defaults_for select
resolve entries kind requested_ids = select entries kind requested_ids (defaults_for entries kind)

abbrev pub available_with : List String → CapabilityManifest → CapabilityAvailability
available_with configured capability =
    let missing =
      filter (λ name. not (includes configured name)) capability.required_configuration in
    record {
      capability = capability;
      available = is_empty missing;
      missing_configuration = missing;
    }

unfoldable pub availability :
    CapabilityRegistry → TaskKind → List String → List String → Result (List CapabilityAvailability)
unfolding resolve
availability entries kind configured requested_ids = do
  capabilities ← resolve entries kind requested_ids
  ok (map (available_with configured) capabilities)
