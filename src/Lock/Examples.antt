-- ===== src/Lock/Examples.antt =====
-- A lockfile with two packages: the theorems at concrete states.
use preflight.GoMap.{lookup}
use Prim.Native.String.{◌++◌ as str_append}
use preflight.Base.{
  String, Option, [], inl, inr, none, refl, returns, some, suc, true, zero, ℕ, ◌∷◌, ◌≡◌,
}
use preflight.Lock.Integrity.{
  Integrity, integrity_is_zero, is_decodable, new_integrity, new_integrity_of, str_length,
}
use preflight.Lock.Package.{PackageLock, AttestationRef, key_of, new_package_lock, package_is_zero}
use preflight.Lock.Machine.{MachineInfo, new_machine_info}
use preflight.Lock.Lockfile.{Lockfile, new_lockfile_v2, set_package}
use preflight.Lock.Lockfile.Refine.{
  replies, add, delete, empty_table, find, replies_lem, spec_replies, upsert,
}
use preflight.Lock.Lockfile.Encoding.{lockfile_to_dto, lockfile_from_dto}
use preflight.Lock.Lockfile.Encoding.RoundTrip.{
  IsStorable, lockfile_from_dto-lockfile_to_dto, as_read,
}
use preflight.Lock.Resolver.{resolve, lock}
use preflight.Lock.Resolver.Modes.{resolve-lock, Honours}

abbrev digest : String
digest = "9f86d081884c7d659a2feaa0c55ad015a3bf4f1b2b0b822cd15d6c15b0f00a08"

abbrev sha : Integrity
sha = record { algorithm = "sha256"; hash = digest }

abbrev laptop : MachineInfo
laptop = record { os = "darwin"; arch = "arm64"; hostname = "work"; snapshot = 2 }

abbrev slsa : AttestationRef
slsa = record { bundle_uri = "rekor"; digest = digest; predicate_type = "slsa" }

abbrev git : PackageLock
git = record {
  provider = "brew";
  name = "git";
  version = "2.43";
  integrity = sha;
  installed_at = 1;
  attestation_ref = some slsa;
}

abbrev node : PackageLock
node = record git { name = "node:lts"; version = "20"; attestation_ref = none }

replies_lem_example :
    replies
      (add git ∷ add git ∷ upsert node ∷ delete "brew" "git" ∷ find "brew" "node:lts" ∷ [])
      (new_lockfile_v2 "locked" laptop)
    ≡ spec_replies
        (add git ∷ add git ∷ upsert node ∷ delete "brew" "git" ∷ find "brew" "node:lts" ∷ [])
        empty_table
replies_lem_example =
    replies_lem "locked" laptop
      (add git ∷ add git ∷ upsert node ∷ delete "brew" "git" ∷ find "brew" "node:lts" ∷ [])
      (refl, (refl, (refl, (refl, (refl, tt)))))

abbrev home : Lockfile
home = record {
  version = 2;
  mode = "frozen";
  machine_info = laptop;
  packages = ("brew:git", git) ∷ ("brew:node:lts", node) ∷ [];
  sync_metadata = record {
    vector = record { entries = ("work", 3) ∷ [] };
    lineage = ("work", record { machine_id = "work"; hostname = "work"; last_seen = 3 }) ∷ [];
    initialized = true;
  };
}

-- A layout of times, by strokes.
unfoldable tally : ℕ → String
tally zero = ""
tally (suc n) = str_append "I" (tally n)

unfoldable untally : String → Option ℕ
untally s = some (str_length s)

home-IsStorable : IsStorable tally untally home
unfolding tally untally str_length new_machine_info lookup key_of new_package_lock integrity_is_zero
    new_integrity new_integrity_of is_decodable
home-IsStorable = (
  (inr refl, inl refl),
  refl,
  refl,
  ((refl, refl), tt),
  (refl, tt),
  ((refl, refl, refl, refl, refl), ((refl, refl, refl, refl, refl), tt)),
  (refl, (refl, tt)),
)

lockfile_from_dto-lockfile_to_dto_example :
    lockfile_from_dto untally (lockfile_to_dto tally home) ≡ returns (as_read home)
lockfile_from_dto-lockfile_to_dto_example =
    lockfile_from_dto-lockfile_to_dto tally untally home home-IsStorable

resolve-lock_example :
    Honours "frozen" "2.44" "2.45"
      (resolve (lock home "brew" "git" "2.44" sha 9).0 "brew" "git" "2.45")
unfolding lock new_package_lock set_package package_is_zero integrity_is_zero
resolve-lock_example = resolve-lock home "brew" "git" "2.44" "2.45" sha 9 (inr refl) refl
