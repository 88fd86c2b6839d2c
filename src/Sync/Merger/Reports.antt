-- ===== src/Sync/Merger/Reports.antt =====
-- What `Merge` and `ApplyResolution` report.
use preflight.Base.{
  String, List, Option, [], ap, arith, eq_iff, false, if◌then◌else◌, length, map, none, refl, some,
  sym, true, ℕ, ◌++◌, ◌+◌, ◌==◌, ◌∙◌, ◌∷◌, ◌≡◌,
}
use preflight.Sync.Conflict.{LockConflict}
use preflight.Sync.Detector.Keys.{is_key}
use preflight.Sync.Resolver.{
  Resolution, ResolutionChoice, choose_base, choose_local, choose_remote, choose_skip,
  new_resolution, resolve_manually,
}
use preflight.Sync.Resolver.Rounds.{is_settled}
use preflight.Sync.State.{SyncError, SyncResult}
use preflight.Sync.Engine.{resolve_manual_conflict}
use preflight.Sync.Engine.Manual.{resolve_manual_conflict_lem}
use mathlib.Core.List.{append-nil, append_assoc}
use preflight.Sync.Merger.{
  MergeChange, MergeChangeType, MergeResult, MergeStats, after_resolve, apply_and_report,
  change_added, change_kept, change_of, change_removed, change_updated, collect_changes,
  count_change, find_resolution, merge_result, merged, zero_merge_stats,
}

abbrev type_index : MergeChangeType → ℕ
type_index change_added = 0
type_index change_removed = 1
type_index change_updated = 2
type_index change_kept = 3

abbrev pub count_type : MergeChangeType → List MergeChange → ℕ
count_type ty [] = 0
count_type ty (c ∷ cs) =
    if type_index c.change_type == type_index ty then count_type ty cs + 1 else count_type ty cs

abbrev stat_of : MergeChangeType → MergeStats → ℕ
stat_of change_added s = s.added
stat_of change_removed s = s.removed
stat_of change_updated s = s.updated
stat_of change_kept s = s.kept

-- The counters say how many changes of each type there are.
abbrev pub IsCounted : List MergeChange → MergeStats → Type 0
IsCounted cs s = (ty : MergeChangeType) → stat_of ty s ≡ count_type ty cs

abbrev pub report : Resolution → MergeChange
report res = change_of res.conflict.package_key res.conflict.local res

count_type-snoc :
    (ty : MergeChangeType) (cs : List MergeChange) (c : MergeChange)
    → count_type ty (cs ++ c ∷ [])
      ≡ count_type ty cs + (if type_index c.change_type == type_index ty then 1 else 0)
count_type-snoc ty [] c = ground arith
count_type-snoc ty (x ∷ cs) c = ground (arith, count_type-snoc ty cs c)

stat_of-count_change :
    (ty' ty : MergeChangeType) (s : MergeStats)
    → stat_of ty (count_change ty' s)
      ≡ stat_of ty s + (if type_index ty' == type_index ty then 1 else 0)
stat_of-count_change change_added change_added s = refl
stat_of-count_change change_added change_removed s = omega arith
stat_of-count_change change_added change_updated s = omega arith
stat_of-count_change change_added change_kept s = omega arith
stat_of-count_change change_removed change_added s = omega arith
stat_of-count_change change_removed change_removed s = refl
stat_of-count_change change_removed change_updated s = omega arith
stat_of-count_change change_removed change_kept s = omega arith
stat_of-count_change change_updated change_added s = omega arith
stat_of-count_change change_updated change_removed s = omega arith
stat_of-count_change change_updated change_updated s = refl
stat_of-count_change change_updated change_kept s = omega arith
stat_of-count_change change_kept change_added s = omega arith
stat_of-count_change change_kept change_removed s = omega arith
stat_of-count_change change_kept change_updated s = omega arith
stat_of-count_change change_kept change_kept s = refl

IsCounted-snoc :
    (cs : List MergeChange) (c : MergeChange) (s : MergeStats)
    → IsCounted cs s
    → IsCounted (cs ++ c ∷ []) (count_change c.change_type s)
IsCounted-snoc cs c s h ty =
    omega (arith, h ty, count_type-snoc ty cs c, stat_of-count_change c.change_type ty s)

collect_changes_lem :
    (rs : List Resolution) (cs : List MergeChange) (s : MergeStats)
    → IsCounted cs s
    → ((collect_changes rs (cs, s)).0 ≡ cs ++ map report rs)
      × IsCounted (collect_changes rs (cs, s)).0 (collect_changes rs (cs, s)).1
unfolding collect_changes
collect_changes_lem [] cs s h = (sym (append-nil cs), h)
collect_changes_lem (res ∷ rs) cs s h =
    let c = report res in
    let (listed, counted) =
      collect_changes_lem rs (cs ++ c ∷ []) (count_change c.change_type s)
        (IsCounted-snoc cs c s h) in
    (listed ∙ append_assoc cs (c ∷ []) (map report rs), counted)

zero-IsCounted : IsCounted [] zero_merge_stats
zero-IsCounted change_added = refl
zero-IsCounted change_removed = refl
zero-IsCounted change_updated = refl
zero-IsCounted change_kept = refl

IsCounted-total :
    (cs : List MergeChange) (s : MergeStats) (n : ℕ)
    → IsCounted cs s
    → IsCounted cs (record s { total_packages = n })
IsCounted-total cs s n h change_added = h change_added
IsCounted-total cs s n h change_removed = h change_removed
IsCounted-total cs s n h change_updated = h change_updated
IsCounted-total cs s n h change_kept = h change_kept

-- `merge_result` succeeds on every sync result: it keeps the merged state, has one change for each
-- resolution, in order, and counts the packages and the changes of each type.
merge_result_lem :
    (r : SyncResult)
    → (out : MergeResult) × (merge_result (some r) ≡ merged out)
      × (out.state ≡ r.merged)
      × (out.changes ≡ map report r.resolutions)
      × (out.stats.total_packages ≡ length r.merged.packages)
      × IsCounted out.changes out.stats
unfolding merge_result
merge_result_lem r =
    let (listed, counted) = collect_changes_lem r.resolutions [] zero_merge_stats zero-IsCounted in
    (_, refl, refl, listed, refl, IsCounted-total _ _ (length r.merged.packages) counted)

find_resolution-snoc :
    (key : String) (rs : List Resolution) (res : Resolution)
    → is_settled key rs ≡ false
    → res.conflict.package_key ≡ key
    → find_resolution key (rs ++ res ∷ []) ≡ some res
unfolding find_resolution
find_resolution-snoc key [] res h e = ground (arith, eq_iff res.conflict.package_key key)
find_resolution-snoc key (x ∷ rs) res h e = ground (arith, find_resolution-snoc key rs res)

resolve_manually-conflict :
    (c : LockConflict) (choice : ResolutionChoice) → (resolve_manually c choice).conflict ≡ c
unfolding resolve_manually new_resolution
resolve_manually-conflict c choose_local = refl
resolve_manually-conflict c choose_remote = refl
resolve_manually-conflict c choose_base = refl
resolve_manually-conflict c choose_skip = refl

after_resolve_lem :
    (c : LockConflict) (out : SyncResult × Option SyncError) (res : Resolution)
    → out.1 ≡ none
    → find_resolution c.package_key out.0.resolutions ≡ some res
    → after_resolve c out ≡ (out.0, merged (change_of c.package_key c.local res))
after_resolve_lem c (r, none) res e f = rw f refl
after_resolve_lem c (r, some x) res e f = cc

-- Where a conflict is pending and its key has no resolution yet, `apply_and_report` never fails:
-- it leaves what the engine leaves, and reports the change that the choice makes.
apply_and_report_lem :
    (r : SyncResult) (c : LockConflict) (choice : ResolutionChoice)
    → is_key c.package_key r.manual_conflicts ≡ true
    → is_settled c.package_key r.resolutions ≡ false
    → apply_and_report r c choice ≡ (
      (resolve_manual_conflict r c choice).0,
      merged (change_of c.package_key c.local (resolve_manually c choice)),
    )
unfolding apply_and_report
apply_and_report_lem r c choice pending fresh =
    let (good, _, _, listed, _, _) = resolve_manual_conflict_lem r c choice c.package_key pending in
    let res = resolve_manually c choice in
    after_resolve_lem c (resolve_manual_conflict r c choice) res good (
      ap (find_resolution c.package_key) listed
      ∙ find_resolution-snoc c.package_key r.resolutions res fresh
          (ap (λ (d : LockConflict). d.package_key) (resolve_manually-conflict c choice)))
