-- ===== src/Plugin/Examples.antt =====
-- A plugin that needs two others: the theorems at a concrete registry.
use Prim.Native.String.{compare}
use preflight.Base.{
  returns, [], fails, false, inl, inr, none, refl, some, trim_left, trim_right, trim_space, true,
  ◌∷◌, ◌≡◌, ◌≢◌,
}
use preflight.GoMap.{lookup, put, keys}
use preflight.Plugin.Constraint.{
  Semver, compare_version_constraints, extract_version, holds_op, satisfies_version_constraint,
  strip_prefix,
}
use preflight.Plugin.Order.{
  Graph, visit, from_first, install_order, visit_all, visit_each, without_last,
}
use preflight.Plugin.Order.Sound.{Judged, install_order_lem}
use preflight.Plugin.Resolver.{
  DependencyResolver, Manifest, ResolutionResult, resolve_again, resolve_dependency, resolve_each,
  resolve_manifest, resolved_list,
}
use preflight.Plugin.Resolver.Install.{IsInstallable, resolve_manifest-done, resolve_manifest_lem}

abbrev graph : Graph
graph = ("app", "lint" ∷ "core" ∷ []) ∷ ("lint", "core" ∷ []) ∷ ("core", []) ∷ []

abbrev ring : Graph
ring = ("app", "lint" ∷ []) ∷ ("lint", "app" ∷ []) ∷ []

in_order : install_order graph ≡ some (returns ("core" ∷ "lint" ∷ "app" ∷ []))
unfolding install_order visit_all visit visit_each lookup put keys without_last from_first
in_order = refl

in_circles : install_order ring ≡ some (fails ("app" ∷ "lint" ∷ "app" ∷ []))
unfolding install_order visit_all visit visit_each lookup put keys without_last from_first
in_circles = refl

install_order_lem_example : Judged graph (install_order graph)
install_order_lem_example = install_order_lem graph

-- Versions of one digit in each place, in the order of their texts.
abbrev texts : Semver
texts = record { is_valid = λ v. true; compare_versions = compare; major = λ v. v }

abbrev core : Manifest
core = record { plugin_name = "core"; plugin_version = "1.0.0"; requires = [] }

abbrev lint : Manifest
lint = record {
  plugin_name = "lint";
  plugin_version = "1.2.0";
  requires = record { name = "core"; version = ">=2.0.0" } ∷ [];
}

abbrev app : Manifest
app = record {
  plugin_name = "app";
  plugin_version = "0.1.0";
  requires =
      record { name = "core"; version = ">=1.0.0" } ∷ record { name = "lint"; version = "" } ∷ [];
}

abbrev resolver : DependencyResolver
resolver = record {
  registry = ("core", core) ∷ ("lint", lint) ∷ [];
  strict = false;
  semver = texts;
}

abbrev outcome : ResolutionResult
outcome = record {
  resolved =
      record { name = "core"; version = ">=2.0.0" }
      ∷ record { name = "lint"; version = "1.2.0" }
      ∷ [];
  missing_dependencies = [];
  version_conflicts = [];
  order = "core" ∷ "lint" ∷ "app" ∷ [];
}

-- The requirement of a second version of core, which the registry does not have, is not noticed.
unnoticed : resolve_manifest resolver app ≡ some (returns outcome)
unfolding resolve_manifest resolve_dependency resolve_each resolve_again resolved_list install_order
    visit_all visit visit_each lookup put keys without_last satisfies_version_constraint holds_op
    strip_prefix trim_space trim_left trim_right extract_version compare_version_constraints
unnoticed = refl

resolve_manifest-done_example : resolve_manifest resolver app ≢ none
resolve_manifest-done_example = resolve_manifest-done resolver app

resolve_manifest_lem_example : IsInstallable resolver app outcome "lint" lint
unfolding lookup
resolve_manifest_lem_example =
    resolve_manifest_lem resolver app outcome "lint" lint unnoticed refl refl (inr (inl refl)) refl
