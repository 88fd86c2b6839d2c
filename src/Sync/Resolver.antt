-- ===== src/Sync/Resolver.antt =====
-- internal/domain/sync/conflict_resolver.go: strategies that settle a conflict or leave it.
pub mod Rounds
pub mod Mirror
use preflight.Base.{
  Bool, List, Option, String, [], false, if◌then◌else◌, ltb, none, not, some, true, ◌&&◌, ◌++◌,
  ◌||◌, ◌∷◌,
}
use preflight.Sync.VersionVector.{equal, CausalRelation, after, before, concurrent}
use preflight.Sync.Conflict.{
  LockConflict, ConflictType, PackageLockInfo, both_have_provenance, both_modified, info_is_zero,
  local_only, remote_only, vectors_of, version_mismatch, zero_info,
}

pub data ResolutionStrategy : Type 0 where
  manual newest local_wins remote_wins auto : ResolutionStrategy

pub data ResolutionChoice : Type 0 where
  choose_local choose_remote choose_base choose_skip : ResolutionChoice

pub record Resolution : Type 0 where
  pub conflict : LockConflict
  pub choice : ResolutionChoice
  pub result : PackageLockInfo
  pub reason : String

unfoldable pub new_resolution :
    LockConflict → ResolutionChoice → PackageLockInfo → String → Resolution
new_resolution c choice result reason = record {
  conflict = c;
  choice = choice;
  result = result;
  reason = reason;
}

-- `Resolution{}, true`: manual intervention is needed.
abbrev pub needs_manual : Option Resolution
needs_manual = none

abbrev pub is_skip : ResolutionChoice → Bool
is_skip choose_skip = true
is_skip _ = false

unfoldable pub is_skipped : Resolution → Bool
is_skipped r = is_skip r.choice

unfoldable pub is_delete : Resolution → Bool
is_delete r = info_is_zero r.result && not (is_skip r.choice)

-- The comparison of the two modification times that ends `resolveNewest` and
-- `resolveVersionMismatchAuto`, with the reasons that they give.
unfoldable pub by_timestamp : LockConflict → String → String → Option Resolution
by_timestamp c local_reason remote_reason =
    if ltb c.remote.modified_at c.local.modified_at
    then some (new_resolution c choose_local c.local local_reason)
    else if ltb c.local.modified_at c.remote.modified_at
    then some (new_resolution c choose_remote c.remote remote_reason)
    else needs_manual

unfoldable pub newest_by_vector : LockConflict → CausalRelation → Option Resolution
unfolding by_timestamp
newest_by_vector c after =
    some (new_resolution c choose_local c.local "newest: local has later vector")
newest_by_vector c before =
    some (new_resolution c choose_remote c.remote "newest: remote has later vector")
newest_by_vector c equal =
    by_timestamp c "newest: local has later timestamp" "newest: remote has later timestamp"
newest_by_vector c concurrent = needs_manual

unfoldable pub resolve_newest : LockConflict → Option Resolution
unfolding newest_by_vector both_have_provenance vectors_of
resolve_newest c =
    if info_is_zero c.local || info_is_zero c.remote
    then needs_manual
    else if both_have_provenance c.local c.remote
    then newest_by_vector c (vectors_of c.local c.remote)
    else by_timestamp c "newest: local has later timestamp" "newest: remote has later timestamp"

unfoldable pub auto_by_vector : LockConflict → CausalRelation → Option Resolution
auto_by_vector c after =
    some (new_resolution c choose_local c.local "auto: local happened-after remote")
auto_by_vector c before =
    some (new_resolution c choose_remote c.remote "auto: remote happened-after local")
auto_by_vector c equal = needs_manual
auto_by_vector c concurrent = needs_manual

unfoldable pub resolve_version_mismatch_auto : LockConflict → Option Resolution
unfolding auto_by_vector by_timestamp both_have_provenance vectors_of
resolve_version_mismatch_auto c =
    if info_is_zero c.local || info_is_zero c.remote
    then needs_manual
    else if both_have_provenance c.local c.remote
    then auto_by_vector c (vectors_of c.local c.remote)
    else by_timestamp c "auto: local has later timestamp" "auto: remote has later timestamp"

-- The `switch` on the conflict's type.
unfoldable pub auto_by_type : ConflictType → LockConflict → Option Resolution
unfolding resolve_version_mismatch_auto
auto_by_type local_only c = some (new_resolution c choose_local c.local "auto: local addition")
auto_by_type remote_only c = some (new_resolution c choose_remote c.remote "auto: remote addition")
auto_by_type version_mismatch c = resolve_version_mismatch_auto c
auto_by_type both_modified c =
    if info_is_zero c.local || info_is_zero c.remote
    then needs_manual
    else resolve_version_mismatch_auto c

unfoldable pub resolve_auto : LockConflict → Option Resolution
unfolding auto_by_type
resolve_auto c = auto_by_type c.conflict_type c

unfoldable pub resolve_local_wins : LockConflict → Resolution
resolve_local_wins c = new_resolution c choose_local c.local "strategy: local-wins"

unfoldable pub resolve_remote_wins : LockConflict → Resolution
resolve_remote_wins c = new_resolution c choose_remote c.remote "strategy: remote-wins"

-- `none` is the result `true` of the Go code: the conflict needs a manual resolution.
unfoldable pub resolve : ResolutionStrategy → LockConflict → Option Resolution
unfolding resolve_auto resolve_newest resolve_local_wins resolve_remote_wins
resolve manual c = needs_manual
resolve local_wins c = some (resolve_local_wins c)
resolve remote_wins c = some (resolve_remote_wins c)
resolve newest c = resolve_newest c
resolve auto c = resolve_auto c

-- One round of `ResolveAll`: the conflict goes to one of the two lists.
abbrev pub sort_out :
    Option Resolution
    → LockConflict
    → List Resolution × List LockConflict
    → List Resolution × List LockConflict
sort_out none c (resolved, unresolved) = (resolved, unresolved ++ c ∷ [])
sort_out (some r) c (resolved, unresolved) = (resolved ++ r ∷ [], unresolved)

unfoldable pub resolve_rounds :
    ResolutionStrategy
    → List LockConflict
    → List Resolution × List LockConflict
    → List Resolution × List LockConflict
resolve_rounds s [] acc = acc
resolve_rounds s (c ∷ cs) acc = resolve_rounds s cs (sort_out (resolve s c) c acc)

unfoldable pub resolve_all :
    ResolutionStrategy → List LockConflict → List Resolution × List LockConflict
unfolding resolve_rounds
resolve_all s conflicts = resolve_rounds s conflicts ([], [])

unfoldable pub resolve_manually : LockConflict → ResolutionChoice → Resolution
resolve_manually c choose_local = new_resolution c choose_local c.local "manually selected local"
resolve_manually c choose_remote =
    new_resolution c choose_remote c.remote "manually selected remote"
resolve_manually c choose_base = new_resolution c choose_base c.base "manually selected base"
resolve_manually c choose_skip = new_resolution c choose_skip zero_info "manually skipped"
