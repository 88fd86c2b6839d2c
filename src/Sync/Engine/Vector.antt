-- ===== src/Sync/Engine/Vector.antt =====
-- The version vector of a merged state.
use preflight.Sync.Detector.{all_conflicts}
use preflight.Sync.Resolver.{resolve_all}
use preflight.Sync.Detector.{detect}
use preflight.Sync.Building.Metadata.{build_merged_state-meta_of}
use preflight.Base.{
  Option, ℕ, ◌≡◌, String, ap, arith, eq_iff, if◌then◌else◌, not, str_eq, true, ◌&&◌, ◌+◌, ◌<◌, ◌^◌,
  ◌∙◌, ◌≢◌,
}
use preflight.GoMap.{IsMap}
use preflight.Sync.VersionVector.{VersionVector, get, merge, increment, compare, dominates, after}
use preflight.Sync.VersionVector.Order.{NoneLess, dominates_iff, compare_iff}
use preflight.Sync.VersionVector.Merge.{get-merge, get-increment}
use preflight.Sync.Metadata.{SyncMetadata, merge_metadata, record_activity}
use preflight.Sync.State.{LockfileState, SyncEngine}
use preflight.Sync.Engine.{sync_states, merged_metadata, detect_input}

module _ (e : SyncEngine) (local remote : LockfileState) (base : Option LockfileState)
    (now : ℕ) where
  abbrev joined : VersionVector
  joined = merge local.metadata.vector remote.metadata.vector

  abbrev pub merged_vector : VersionVector
  merged_vector = (sync_states e local remote base now).merged.metadata.vector

  vector_lem : merged_vector ≡ (merged_metadata e local remote now).vector
  unfolding sync_states
  vector_lem =
      let input = detect_input local remote base in
      ap (λ (m : SyncMetadata). m.vector)
        (build_merged_state-meta_of input (merged_metadata e local remote now) (detect input)
          (resolve_all e.strategy (all_conflicts (detect input))).0)

  merged_vector_lem :
      merged_vector ≡ (if str_eq e.machine_id "" then joined else increment joined e.machine_id)
  merged_vector_lem =
      vector_lem ∙ unfold merged_metadata merge_metadata record_activity in ground arith

  at_machine :
      (k : String)
      → get joined e.machine_id + 1 < 2 ^ 64
      → get merged_vector k ≡ (
          if not (str_eq e.machine_id "") && str_eq e.machine_id k
          then get joined k + 1
          else get joined k)
  at_machine k room =
      ground (arith, merged_vector_lem, get-increment joined e.machine_id k, eq_iff e.machine_id k)

  over_local :
      IsMap remote.metadata.vector.entries
      → get joined e.machine_id + 1 < 2 ^ 64
      → NoneLess merged_vector local.metadata.vector
  over_local is_map room k =
      ground
        (arith, at_machine k room, get-merge local.metadata.vector remote.metadata.vector k is_map)

  over_remote :
      IsMap remote.metadata.vector.entries
      → get joined e.machine_id + 1 < 2 ^ 64
      → NoneLess merged_vector remote.metadata.vector
  over_remote is_map room k =
      ground
        (arith, at_machine k room, get-merge local.metadata.vector remote.metadata.vector k is_map)

  -- The merged vector dominates the vectors of both sides, provided that the remote vector has
  -- each machine once and that the engine's clock does not wrap.
  sync_vector :
      IsMap remote.metadata.vector.entries
      → get (merge local.metadata.vector remote.metadata.vector) e.machine_id + 1 < 2 ^ 64
      → (dominates merged_vector local.metadata.vector ≡ true)
        × (dominates merged_vector remote.metadata.vector ≡ true)
  sync_vector is_map room = (
    (dominates_iff merged_vector local.metadata.vector).1 (over_local is_map room),
    (dominates_iff merged_vector remote.metadata.vector).1 (over_remote is_map room),
  )

  -- If the engine has a machine ID, the merged vector is strictly after the vectors of both sides,
  -- provided that the remote vector has each machine once and that the engine's clock does not
  -- wrap.
  pub sync_vector-after :
      IsMap remote.metadata.vector.entries
      → get (merge local.metadata.vector remote.metadata.vector) e.machine_id + 1 < 2 ^ 64
      → e.machine_id ≢ ""
      → (compare merged_vector local.metadata.vector ≡ after)
        × (compare merged_vector remote.metadata.vector ≡ after)
  sync_vector-after is_map room named =
      let v = local.metadata.vector in
      let w = remote.metadata.vector in
      let m = e.machine_id in
      let at_m = at_machine m room in
      let join_m = get-merge v w m is_map in
      (
        (compare_iff after merged_vector v).1
            (over_local is_map room, (m, ground (arith, at_m, join_m, eq_iff m "", eq_iff m m))),
        (compare_iff after merged_vector w).1
            (over_remote is_map room, (m, ground (arith, at_m, join_m, eq_iff m "", eq_iff m m))),
      )
