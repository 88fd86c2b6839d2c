-- ===== src/Sync/Merger/Examples.antt =====
-- The theorems on internal/domain/sync/lockfile_merger.go at the two laptops' states.
use preflight.Base.{arith, refl, some, ◌≡◌}
use preflight.GoMap.{lookup}
use preflight.Sync.VersionVector.{compare, after, get}
use preflight.Sync.Examples.{home, work}
use preflight.Sync.Merger.{diff, LockfileMerger, prepare_for_commit}
use preflight.Sync.Merger.Changes.{diff_lem, find_change, IsChangeOf}
use preflight.Sync.Merger.Commit.{prepare_for_commit_lem}

abbrev laptop : LockfileMerger
laptop = record { machine_id = "work"; hostname = "work.local" }

diff_lem_example :
    IsChangeOf "brew:gh"
      (lookup "brew:gh" work.packages)
      (lookup "brew:gh" home.packages)
      (find_change "brew:gh" (diff (some work) (some home)))
unfolding lookup
diff_lem_example = diff_lem work home "brew:gh" (refl, (refl, tt)) (refl, (refl, tt))

prepare_for_commit_lem_example :
    (lookup "brew:jq" (prepare_for_commit laptop work 7).packages ≡ lookup "brew:jq" work.packages)
    × (compare (prepare_for_commit laptop work 7).metadata.vector work.metadata.vector ≡ after)
unfolding get lookup
prepare_for_commit_lem_example =
    prepare_for_commit_lem laptop work 7 "brew:jq" (refl, (refl, tt)) (omega arith)
