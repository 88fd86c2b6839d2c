-- ===== src/Lock/Package.antt =====
-- internal/domain/lock/package_lock.go: a locked version of a package. A time is a number, and
-- `time.Time.IsZero` is zero.
pub mod Laws
use Prim.Native.String.{◌++◌ as str_append}
use preflight.Base.{
  String, Bool, Fallible, Option, cut, fails, false, if◌then◌else◌, none, not, returns, some,
  str_eq, ℕ, ◌&&◌, ◌==◌,
}
use preflight.Lock.Integrity.{Integrity, integrity_is_zero}

pub record AttestationRef : Type 0 where
  pub bundle_uri : String
  pub digest : String
  pub predicate_type : String

pub record PackageLock : Type 0 where
  pub provider : String
  pub name : String
  pub version : String
  pub integrity : Integrity
  pub installed_at : ℕ
  pub attestation_ref : Option AttestationRef

pub data PackageError : Type 0 where
  empty_provider empty_name empty_version missing_integrity invalid_installed_at : PackageError

pub data KeyError : Type 0 where
  key_empty key_separator key_provider key_name : KeyError

abbrev pub attestation_is_zero : AttestationRef → Bool
attestation_is_zero a = str_eq a.bundle_uri "" && (str_eq a.digest "" && str_eq a.predicate_type "")

unfoldable pub new_package_lock :
    String → String → String → Integrity → ℕ → Fallible PackageError PackageLock
new_package_lock provider name version integrity installed_at =
    if str_eq provider ""
    then fails empty_provider
    else if str_eq name ""
    then fails empty_name
    else if str_eq version ""
    then fails empty_version
    else if integrity_is_zero integrity
    then fails missing_integrity
    else if installed_at == 0
    then fails invalid_installed_at
    else returns (record {
      provider = provider;
      name = name;
      version = version;
      integrity = integrity;
      installed_at = installed_at;
      attestation_ref = none;
    })

unfoldable pub has_attestation : PackageLock → Bool
has_attestation p = elim p.attestation_ref [ none ↦ false | some a ↦ not (attestation_is_zero a) ]

unfoldable pub with_attestation : PackageLock → AttestationRef → PackageLock
with_attestation p a = record p { attestation_ref = some a }

-- `provider + ":" + name`
unfoldable pub key_of : String → String → String
key_of provider name = str_append provider (str_append ":" name)

abbrev pub package_key : PackageLock → String
package_key p = key_of p.provider p.name

unfoldable pub package_is_zero : PackageLock → Bool
package_is_zero p = str_eq p.provider "" && (str_eq p.name "" && str_eq p.version "")

unfoldable pub with_version :
    PackageLock → String → Integrity → ℕ → Fallible PackageError PackageLock
unfolding new_package_lock
with_version p version integrity installed_at =
    new_package_lock p.provider p.name version integrity installed_at

unfoldable pub matches_version : PackageLock → String → Bool
matches_version p version = str_eq p.version version && not (str_eq version "")

abbrev key_parts : Option (String × String) → Fallible KeyError (String × String)
key_parts none = fails key_separator
key_parts (some (provider, name)) =
    if str_eq provider ""
    then fails key_provider
    else if str_eq name ""
    then fails key_name
    else returns (provider, name)

unfoldable pub parse_package_key : String → Fallible KeyError (String × String)
parse_package_key key = if str_eq key "" then fails key_empty else key_parts (cut b':' key)
