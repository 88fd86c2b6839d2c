-- ===== src/Lock/Resolver.antt =====
-- internal/domain/lock/resolver.go: which version of a package is used. `time.Now()` is an argument
-- of `lock`, and a resolver is its lockfile.
pub mod Modes
use preflight.GoMap.{is_some}
use preflight.Base.{
  String, Bool, Fallible, Option, fails, false, if◌then◌else◌, map, none, not, returns, some,
  str_eq, true, ℕ, ◌&&◌,
}
use preflight.Lock.Integrity.{Integrity}
use preflight.Lock.Package.{PackageLock, PackageError, new_package_lock}
use preflight.Lock.Lockfile.{
  Lockfile, LockError, get_package, has_package, remove_package, set_package,
}

pub data ResolutionSource : Type 0 where
  source_none source_latest source_lockfile : ResolutionSource

pub data ResolutionError : Type 0 where
  version_not_locked : String → String → ResolutionError
  version_drifted : String → String → String → String → ResolutionError

pub record Resolution : Type 0 where
  pub provider : String
  pub name : String
  pub version : String
  pub source : ResolutionSource
  pub is_locked : Bool
  pub locked_version : String
  pub available_version : String
  pub drifted : Bool
  pub updated : Bool
  pub error : Option ResolutionError

-- `Failed`, which is set exactly where `Error` is.
abbrev pub failed : Resolution → Bool
failed r = is_some r.error

abbrev pub version_or_empty : Option PackageLock → String
version_or_empty none = ""
version_or_empty (some p) = p.version

abbrev pub start_resolution : String → String → String → Option PackageLock → Resolution
start_resolution provider name latest found = record {
  provider = provider;
  name = name;
  version = "";
  source = source_none;
  is_locked = false;
  locked_version = version_or_empty found;
  available_version = latest;
  drifted = false;
  updated = false;
  error = none;
}

abbrev pub use_locked : PackageLock → Resolution → Resolution
use_locked p r = record r { version = p.version; source = source_lockfile; is_locked = true }

abbrev pub resolve_locked : String → String → Option PackageLock → Resolution → Resolution
resolve_locked provider name none r = record r { error = some (version_not_locked provider name) }
resolve_locked provider name (some p) r = use_locked p r

abbrev pub check_drift : String → String → String → PackageLock → Resolution → Resolution
check_drift provider name latest p r =
    if not (str_eq latest "") && (not (str_eq latest "latest") && not (str_eq p.version latest))
    then record r { drifted = true; error = some (version_drifted provider name p.version latest) }
    else r

abbrev pub resolve_frozen : String → String → String → Option PackageLock → Resolution → Resolution
resolve_frozen provider name latest none r = record r {
  error = some (version_not_locked provider name);
}
resolve_frozen provider name latest (some p) r = check_drift provider name latest p (use_locked p r)

-- The `switch` on the mode.
abbrev pub resolve_by : String → String → String → String → Option PackageLock → Resolution
resolve_by mode provider name latest found =
    let r = start_resolution provider name latest found in
    if str_eq mode "intent"
    then record r { version = latest; source = source_latest }
    else if str_eq mode "locked"
    then resolve_locked provider name found r
    else if str_eq mode "frozen"
    then resolve_frozen provider name latest found r
    else r

unfoldable pub resolve : Lockfile → String → String → String → Resolution
resolve l provider name latest =
    resolve_by l.mode provider name latest (get_package l provider name)

unfoldable pub resolve_with_update : Lockfile → String → String → String → Resolution
resolve_with_update l provider name latest =
    record (start_resolution provider name latest (get_package l provider name)) {
      version = latest;
      source = source_latest;
      updated = true;
    }

pub data LockFailure : Type 0 where
  bad_package : PackageError → LockFailure
  bad_lockfile : LockError → LockFailure

abbrev pub from_lockfile : Option LockError → Option LockFailure
from_lockfile none = none
from_lockfile (some e) = some (bad_lockfile e)

abbrev pub set_checked :
    Lockfile → Fallible PackageError PackageLock → Lockfile × Option LockFailure
set_checked l (fails e) = (l, some (bad_package e))
set_checked l (returns p) = let (after, e) = set_package l p in (after, from_lockfile e)

unfoldable pub lock :
    Lockfile → String → String → String → Integrity → ℕ → Lockfile × Option LockFailure
unfolding new_package_lock
lock l provider name version integrity now =
    set_checked l (new_package_lock provider name version integrity now)

unfoldable pub unlock : Lockfile → String → String → Lockfile × Bool
unfolding remove_package
unlock l provider name = remove_package l provider name

unfoldable pub is_locked_in : Lockfile → String → String → Bool
unfolding has_package
is_locked_in l provider name = has_package l provider name

abbrev pub locked_version_of : Option PackageLock → Option String
locked_version_of none = none
locked_version_of (some p) = some p.version

unfoldable pub get_locked_version : Lockfile → String → String → Option String
get_locked_version l provider name = locked_version_of (get_package l provider name)
