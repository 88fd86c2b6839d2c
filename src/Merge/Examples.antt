-- ===== src/Merge/Examples.antt =====
-- A shell configuration that was changed on both sides: the theorems at concrete texts.
use preflight.Merge.Plain.{IsQuiet}
use preflight.Base.{String, join, map, refl, split_on, trim_suffix, ◌≡◌}
use preflight.Merge.{
  three_way_merge, Conflict, diff3, format_whole_file_conflict, git, join_lines, kind_of,
  new_conflict_result, parse_conflict_regions, resolve_all_conflicts, resolve_lines, resolve_ours,
  split_lines, unsplit_lines,
}
use preflight.Merge.RoundTrip.{
  IsDiverged, parse-three_way_merge, resolve-three_way_merge, shown_base, side_lines,
}

abbrev base : String
base = "export EDITOR=vi\n"

abbrev ours : String
ours = "export EDITOR=nvim\nalias g=git\n"

abbrev theirs : String
theirs = "export EDITOR=emacs\n"

quiet : (IsQuiet base) × (IsQuiet ours) × (IsQuiet theirs)
unfolding split_lines split_on trim_suffix kind_of
quiet = ((refl, tt), (refl, (refl, tt)), (refl, tt))

apart : IsDiverged base ours theirs
apart = (λ e. cc, λ e. cc, λ e. cc)

parse-three_way_merge_example :
    parse_conflict_regions (three_way_merge base ours theirs diff3).content
    ≡ map {A = Conflict}
        (λ c. record c { base = shown_base diff3 c.base })
        (three_way_merge base ours theirs diff3).conflicts
parse-three_way_merge_example =
    parse-three_way_merge base ours theirs diff3 apart quiet.0 quiet.1 quiet.2

resolve-three_way_merge_example :
    resolve_all_conflicts (three_way_merge base ours theirs git).content resolve_ours
    ≡ unsplit_lines (side_lines base ours theirs resolve_ours git)
resolve-three_way_merge_example =
    resolve-three_way_merge base ours theirs git resolve_ours apart quiet.0 quiet.1 quiet.2

-- Our text comes back whole.
ours_again :
    resolve_all_conflicts (three_way_merge base ours theirs git).content resolve_ours ≡ ours
unfolding three_way_merge new_conflict_result format_whole_file_conflict join_lines join split_lines
    split_on trim_suffix resolve_all_conflicts resolve_lines kind_of unsplit_lines
ours_again = refl

-- A text with an underlined heading loses all behind the underline.
heading_lost :
    resolve_all_conflicts
      (three_way_merge "" "Title\n=======\ntext\n" "x\n" git).content
      resolve_ours
    ≡ "Title\n"
unfolding three_way_merge new_conflict_result format_whole_file_conflict join_lines join split_lines
    split_on trim_suffix resolve_all_conflicts resolve_lines kind_of unsplit_lines
heading_lost = refl
