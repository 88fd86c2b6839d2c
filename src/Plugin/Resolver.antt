-- ===== src/Plugin/Resolver.antt =====
-- internal/domain/plugin/resolver.go: the dependencies of a plugin, found in a registry. Of a
-- manifest the model has the fields that the resolver reads, the context is not read, and an absent
-- registry is an empty one. The fuel bounds the depth of resolveDependency: `none` is a run that ran
-- out of it.
pub mod Steps
pub mod Edges
pub mod Settled
pub mod Complete
pub mod Install
use preflight.Base.{
  String, returns, Bool, Fallible, List, Option, [], fails, false, if◌then◌else◌, length, ltb, none,
  not, some, str_eq, suc, true, zero, ℕ, ◌&&◌, ◌++◌, ◌+◌, ◌||◌, ◌∷◌,
}
use preflight.GoMap.{put, lookup, has}
use preflight.Plugin.Constraint.{
  Semver, compare_version_constraints, is_gt_order, satisfies_version_constraint,
}
use preflight.Plugin.Order.{Graph, install_order, neighbors}

pub record Dependency : Type 0 where
  pub name : String
  pub version : String

pub record Manifest : Type 0 where
  pub plugin_name : String
  pub plugin_version : String
  pub requires : List Dependency

pub record DependencyConflict : Type 0 where
  pub conflict_name : String
  pub version1 : String
  pub required_by : String
  pub version2 : String

-- The maps and the lists of the result that resolveDependency writes to.
pub record Work : Type 0 where
  pub graph : Graph
  pub versions : List (String × String)
  pub requirers : List (String × String)
  pub missing : List Dependency
  pub conflicts : List DependencyConflict

pub record ResolutionResult : Type 0 where
  pub resolved : List Dependency
  pub missing_dependencies : List Dependency
  pub version_conflicts : List DependencyConflict
  pub order : List String

pub record DependencyResolver : Type 0 where
  pub registry : List (String × Manifest)
  pub strict : Bool
  pub semver : Semver

-- `graph[parentName] = append(graph[parentName], depName)`
abbrev pub add_edge : String → String → Graph → Graph
add_edge parent node g = put parent (neighbors g parent ++ node ∷ []) g

-- A node with no edges, if it is not there.
abbrev pub add_node : String → Graph → Graph
add_node node g = if has node g then g else put node [] g

abbrev pub text_or_empty : Option String → String
text_or_empty none = ""
text_or_empty (some s) = s

-- The branch of a dependency that has a version already.
unfoldable pub resolve_again : DependencyResolver → Dependency → String → String → Work → Work
resolve_again r dep parent existing w =
    let edge = record w { graph = add_edge parent dep.name w.graph } in
    let conflict = record w {
      conflicts =
          w.conflicts
          ++ record {
            conflict_name = dep.name;
            version1 = existing;
            required_by = text_or_empty (lookup dep.name w.requirers);
            version2 = dep.version;
          }
            ∷ [];
    } in
    let newer = record edge {
      versions = put dep.name dep.version w.versions;
      requirers = put dep.name parent w.requirers;
    } in
    if not (str_eq dep.version "")
      && (not (str_eq existing "") && not (str_eq dep.version existing))
    then (if r.strict
        then conflict
        else if is_gt_order (compare_version_constraints r.semver dep.version existing)
        then newer
        else edge)
    else edge

abbrev pub is_missing : DependencyResolver → Dependency → Manifest → Bool
is_missing r dep m =
    not (str_eq dep.version "")
    && not (satisfies_version_constraint r.semver m.plugin_version dep.version)

-- The entries for a dependency that is found.
abbrev pub enter_dependency : Dependency → String → Manifest → Work → Work
enter_dependency dep parent m w = record w {
  versions =
      put dep.name (if str_eq dep.version "" then m.plugin_version else dep.version) w.versions;
  requirers = put dep.name parent w.requirers;
  graph = add_node dep.name (add_edge parent dep.name w.graph);
}

abbrev pub then_work : Option Work → (Work → Option Work) → Option Work
then_work none next = none
then_work (some w) next = next w

unfoldable pub resolve_each :
    (Dependency → Work → Option Work) → List Dependency → Work → Option Work
resolve_each resolve [] w = some w
resolve_each resolve (d ∷ ds) w = then_work (resolve d w) (resolve_each resolve ds)

abbrev pub report_missing : Dependency → Work → Work
report_missing dep w = record w { missing = w.missing ++ dep ∷ [] }

unfoldable pub resolve_dependency :
    ℕ → DependencyResolver → String → Dependency → Work → Option Work
unfolding resolve_each resolve_again
resolve_dependency zero r parent dep w = none
resolve_dependency (suc fuel) r parent dep w = elim (lookup dep.name w.versions) [
  | some existing ↦ some (resolve_again r dep parent existing w)
  | none ↦ elim (lookup dep.name r.registry) [
    | none ↦ some (report_missing dep w)
    | some m ↦ elim (is_missing r dep m) [
      | true ↦ some (report_missing dep w)
      | false ↦
          resolve_each (resolve_dependency fuel r dep.name) m.requires
            (enter_dependency dep parent m w)
    ]
  ]
]

unfoldable pub resolved_list : List (String × String) → List String → List Dependency
resolved_list versions [] = []
resolved_list versions (n ∷ ns) = elim (lookup n versions) [
  | none ↦ resolved_list versions ns
  | some v ↦ record { name = n; version = v } ∷ resolved_list versions ns
]

-- `len(r.Missing) > 0 || len(r.Conflicts) > 0`
abbrev pub has_errors : Work → Bool
has_errors w = ltb 0 (length w.missing) || ltb 0 (length w.conflicts)

abbrev pub result_of :
    Work
    → Option (Fallible (List String) (List String))
    → Option (Fallible (List String) ResolutionResult)
result_of w none = none
result_of w (some (fails cycle)) = some (fails cycle)
result_of w (some (returns order)) = some (
    returns (record {
      resolved = resolved_list w.versions order;
      missing_dependencies = w.missing;
      version_conflicts = w.conflicts;
      order = order;
    }))

abbrev pub finish_resolution : Option Work → Option (Fallible (List String) ResolutionResult)
finish_resolution none = none
finish_resolution (some w) =
    if has_errors w
    then some (
        returns (record {
          resolved = [];
          missing_dependencies = w.missing;
          version_conflicts = w.conflicts;
          order = [];
        }))
    else result_of w (install_order w.graph)

abbrev pub new_work : Work
new_work = record { graph = []; versions = []; requirers = []; missing = []; conflicts = [] }

-- Each call gives a version to a plugin of the registry, so the calls are never deeper than the
-- registry is long, and one more.
unfoldable pub resolve_manifest :
    DependencyResolver → Manifest → Option (Fallible (List String) ResolutionResult)
unfolding resolve_dependency
resolve_manifest r manifest = finish_resolution (
    resolve_each (resolve_dependency (length r.registry + 1) r manifest.plugin_name)
      manifest.requires new_work)
