-- ===== src/Plugin/Resolver/Steps.antt =====
-- One call of resolveDependency, by its branches.
use preflight.Base.{String, false, none, refl, some, suc, true, ℕ, ◌≡◌}
use preflight.GoMap.{lookup}
use preflight.Plugin.Resolver.{
  Work, Dependency, DependencyResolver, Manifest, enter_dependency, is_missing, report_missing,
  resolve_again, resolve_dependency, resolve_each,
}

module _ (fuel : ℕ) (r : DependencyResolver) (parent : String) (d : Dependency) (w : Work) where
  pub dependency_again :
      (existing : String)
      → lookup d.name w.versions ≡ some existing
      → resolve_dependency (suc fuel) r parent d w ≡ some (resolve_again r d parent existing w)
  unfolding resolve_dependency
  dependency_again existing e = rw (resolve_dependency, e) refl

  pub dependency_unknown :
      lookup d.name w.versions ≡ none
      → lookup d.name r.registry ≡ none
      → resolve_dependency (suc fuel) r parent d w ≡ some (report_missing d w)
  unfolding resolve_dependency
  dependency_unknown e f = rw (resolve_dependency, e, f) refl

  pub dependency_lacks :
      (m : Manifest)
      → lookup d.name w.versions ≡ none
      → lookup d.name r.registry ≡ some m
      → is_missing r d m ≡ true
      → resolve_dependency (suc fuel) r parent d w ≡ some (report_missing d w)
  unfolding resolve_dependency
  dependency_lacks m e f lacks = rw (resolve_dependency, e, f, lacks) refl

  pub dependency_found :
      (m : Manifest)
      → lookup d.name w.versions ≡ none
      → lookup d.name r.registry ≡ some m
      → is_missing r d m ≡ false
      → resolve_dependency (suc fuel) r parent d w
        ≡ resolve_each (resolve_dependency fuel r d.name) m.requires (enter_dependency d parent m w)
  unfolding resolve_dependency
  dependency_found m e f fits = rw (resolve_dependency, e, f, fits) refl
