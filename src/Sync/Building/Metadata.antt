-- ===== src/Sync/Building/Metadata.antt =====
-- The loops of `buildMergedState` leave the metadata alone.
use preflight.Sync.Metadata.{SyncMetadata}
use preflight.Base.{List, String, [], arith, refl, ◌∙◌, ◌∷◌, ◌≡◌}
use preflight.Sync.Detector.{DetectInput, DetectResult, package_keys}
use preflight.Sync.Resolver.{Resolution}
use preflight.Sync.State.{new_lockfile_state_with_metadata}
use preflight.Sync.Building.{
  Building, build_clean, build_cleans, build_merged_state, build_resolution, build_resolutions,
  build_rest, build_rests,
}

abbrev pub meta_of : Building → SyncMetadata
meta_of b = b.merged.metadata

module _ (input : DetectInput) where
  build_resolution-meta_of :
      (r : Resolution) (b : Building) → meta_of (build_resolution input r b) ≡ meta_of b
  unfolding build_resolution
  build_resolution-meta_of r b = ground arith

  build_resolutions-meta_of :
      (rs : List Resolution) (b : Building) → meta_of (build_resolutions input rs b) ≡ meta_of b
  unfolding build_resolutions
  build_resolutions-meta_of [] b = refl
  build_resolutions-meta_of (r ∷ rs) b =
      build_resolutions-meta_of rs (build_resolution input r b) ∙ build_resolution-meta_of r b

  build_clean-meta_of : (k : String) (b : Building) → meta_of (build_clean input k b) ≡ meta_of b
  unfolding build_clean
  build_clean-meta_of k b = ground arith

  build_cleans-meta_of :
      (ks : List String) (b : Building) → meta_of (build_cleans input ks b) ≡ meta_of b
  unfolding build_cleans
  build_cleans-meta_of [] b = refl
  build_cleans-meta_of (k ∷ ks) b =
      build_cleans-meta_of ks (build_clean input k b) ∙ build_clean-meta_of k b

  build_rest-meta_of :
      (clean : List String) (k : String) (b : Building)
      → meta_of (build_rest input clean k b) ≡ meta_of b
  unfolding build_rest
  build_rest-meta_of clean k b = ground arith

  build_rests-meta_of :
      (clean ks : List String) (b : Building) → meta_of (build_rests input clean ks b) ≡ meta_of b
  unfolding build_rests
  build_rests-meta_of clean [] b = refl
  build_rests-meta_of clean (k ∷ ks) b =
      build_rests-meta_of clean ks (build_rest input clean k b) ∙ build_rest-meta_of clean k b

  pub build_merged_state-meta_of :
      (meta : SyncMetadata) (detected : DetectResult) (rs : List Resolution)
      → meta_of (build_merged_state meta input detected rs) ≡ meta
  unfolding build_merged_state new_lockfile_state_with_metadata
  build_merged_state-meta_of meta detected rs =
      build_rests-meta_of detected.clean (package_keys input) _
      ∙ build_cleans-meta_of detected.clean _
      ∙ build_resolutions-meta_of rs _
