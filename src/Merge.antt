-- ===== src/Merge.antt =====
-- internal/domain/merge/merge.go: the three-way merge of a file, and its conflict markers.
pub mod Lines
pub mod Plain
pub mod RoundTrip
mod Examples
use text.Mathlib.Text.{starts_with, find?}
use Prim.Native.String.{◌++◌ as str_append}
use preflight.Base.{
  String, Bool, List, Option, [], false, if◌then◌else◌, join, length, ltb, none, not, some,
  split_on, str_eq, trim_suffix, true, ℕ, ◌&&◌, ◌++◌, ◌+◌, ◌-◌, ◌||◌, ◌∷◌,
}
use preflight.GoMap.{is_some}

-- Any other style of Go's string type is treated as `git`.
pub data ConflictStyle : Type 0 where
  git diff3 : ConflictStyle

-- The lines from `start` to `end`.
pub record Conflict : Type 0 where
  pub start : ℕ
  pub end : ℕ
  pub base : List String
  pub ours : List String
  pub theirs : List String

pub record MergeResult : Type 0 where
  pub content : String
  pub has_conflicts : Bool
  pub conflicts : List Conflict
  pub clean_merge : Bool

unfoldable pub new_clean_result : String → MergeResult
new_clean_result content = record {
  content = content;
  has_conflicts = false;
  conflicts = [];
  clean_merge = true;
}

unfoldable pub new_conflict_result : String → List Conflict → MergeResult
new_conflict_result content conflicts = record {
  content = content;
  has_conflicts = ltb 0 (length conflicts);
  conflicts = conflicts;
  clean_merge = false;
}

unfoldable pub split_lines : String → List String
split_lines s = if str_eq s "" then [] else split_on b'\n' (trim_suffix b'\n' s)

-- `strings.Join(lines, "\n") + "\n"`
unfoldable pub join_lines : List String → String
join_lines lines = str_append (join "\n" lines) "\n"

abbrev pub start_line : String
start_line = "<<<<<<< ours (config)"

abbrev pub base_line : String
base_line = "||||||| base"

abbrev pub middle_line : String
middle_line = "======="

abbrev pub end_line : String
end_line = ">>>>>>> theirs (file)"

-- The part of a conflict that only one of the styles has.
abbrev pub base_lines : ConflictStyle → List String → List String
base_lines git lines = []
base_lines diff3 lines = base_line ∷ lines

abbrev pub conflict_lines : Conflict → ConflictStyle → List String
conflict_lines c style =
    start_line ∷ c.ours ++ (base_lines style c.base ++ middle_line ∷ (c.theirs ++ end_line ∷ []))

unfoldable pub format_whole_file_conflict : Conflict → ConflictStyle → String
format_whole_file_conflict c style = join_lines (conflict_lines c style)

abbrev pub whole_file : String → String → String → Conflict
whole_file base ours theirs = record {
  start = 0;
  end = 0;
  base = split_lines base;
  ours = split_lines ours;
  theirs = split_lines theirs;
}

unfoldable pub three_way_merge : String → String → String → ConflictStyle → MergeResult
three_way_merge base ours theirs style =
    let c = whole_file base ours theirs in
    let content = format_whole_file_conflict c style in
    if str_eq base ours
    then new_clean_result theirs
    else if str_eq base theirs
    then new_clean_result ours
    else if str_eq ours theirs
    then new_clean_result ours
    else new_conflict_result content (record c { end = length (split_lines content) - 1 } ∷ [])

unfoldable pub has_conflict_markers : String → Bool
has_conflict_markers content =
    is_some (find? content "<<<<<<<")
    && (is_some (find? content "=======") && is_some (find? content ">>>>>>>"))

-- The `switch` on a line that `ParseConflictRegions` and `ResolveAllConflicts` share.
pub data LineKind : Type 0 where
  starts bases splits ends plain : LineKind

unfoldable pub kind_of : String → LineKind
kind_of line =
    if starts_with line "<<<<<<<"
    then starts
    else if starts_with line "|||||||"
    then bases
    else if str_eq line "======="
    then splits
    else if starts_with line ">>>>>>>"
    then ends
    else plain

-- `section`, where `no_section` is the empty text.
pub data Section : Type 0 where
  no_section in_ours in_base in_theirs : Section

pub record Parsing : Type 0 where
  pub conflicts : List Conflict
  pub current : Option Conflict
  pub section : Section

abbrev pub add_line : Section → String → Conflict → Conflict
add_line no_section line c = c
add_line in_ours line c = record c { ours = c.ours ++ line ∷ [] }
add_line in_base line c = record c { base = c.base ++ line ∷ [] }
add_line in_theirs line c = record c { theirs = c.theirs ++ line ∷ [] }

abbrev pub close_conflict : ℕ → Option Conflict → List Conflict → List Conflict
close_conflict i none conflicts = conflicts
close_conflict i (some c) conflicts = conflicts ++ record c { end = i } ∷ []

abbrev pub parse_line : LineKind → ℕ → String → Parsing → Parsing
parse_line starts i line p = record p {
  current = some (record { start = i; end = 0; base = []; ours = []; theirs = [] });
  section = in_ours;
}
parse_line bases i line p = record p { section = in_base }
parse_line splits i line p = record p { section = in_theirs }
parse_line ends i line p = record {
  conflicts = close_conflict i p.current p.conflicts;
  current = none;
  section = no_section;
}
parse_line plain i line p = record p {
  current = elim p.current [ none ↦ none | some c ↦ some (add_line p.section line c) ];
}

unfoldable pub parse_lines : ℕ → List String → Parsing → Parsing
parse_lines i [] p = p
parse_lines i (line ∷ lines) p = parse_lines (i + 1) lines (parse_line (kind_of line) i line p)

unfoldable pub parse_conflict_regions : String → List Conflict
parse_conflict_regions content =
    (parse_lines 0 (split_lines content)
      (record { conflicts = []; current = none; section = no_section })).conflicts

pub data Resolution : Type 0 where
  resolve_ours resolve_theirs resolve_base : Resolution

abbrev pub is_ours : Resolution → Bool
is_ours resolve_ours = true
is_ours _ = false

abbrev pub is_theirs : Resolution → Bool
is_theirs resolve_theirs = true
is_theirs _ = false

abbrev pub is_base : Resolution → Bool
is_base resolve_base = true
is_base _ = false

pub record Resolving : Type 0 where
  pub result : List String
  pub in_conflict : Bool
  pub keeping : Bool

abbrev pub resolve_line : Resolution → LineKind → String → Resolving → Resolving
resolve_line res starts line r = record r { in_conflict = true; keeping = is_ours res }
resolve_line res bases line r = record r { keeping = is_base res }
resolve_line res splits line r = record r { keeping = is_theirs res }
resolve_line res ends line r = record r { in_conflict = false; keeping = false }
resolve_line res plain line r =
    if not r.in_conflict || r.keeping then record r { result = r.result ++ line ∷ [] } else r

unfoldable pub resolve_lines : Resolution → List String → Resolving → Resolving
resolve_lines res [] r = r
resolve_lines res (line ∷ lines) r =
    resolve_lines res lines (resolve_line res (kind_of line) line r)

-- No lines are the empty text.
unfoldable pub unsplit_lines : List String → String
unsplit_lines [] = ""
unsplit_lines (line ∷ lines) = join_lines (line ∷ lines)

unfoldable pub resolve_all_conflicts : String → Resolution → String
resolve_all_conflicts content res =
    unsplit_lines
      (resolve_lines res (split_lines content)
        (record { result = []; in_conflict = false; keeping = false })).result

pub data ChangeType : Type 0 where
  change_none change_ours change_theirs change_both change_same : ChangeType

unfoldable pub detect_change_type : String → String → String → ChangeType
detect_change_type base ours theirs =
    if str_eq base ours && str_eq base theirs
    then change_none
    else if str_eq base theirs
    then change_ours
    else if str_eq base ours
    then change_theirs
    else if str_eq ours theirs
    then change_same
    else change_both

unfoldable pub needs_manual_resolution : ChangeType → Bool
needs_manual_resolution change_both = true
needs_manual_resolution _ = false

pub record ConflictSummary : Type 0 where
  pub path : String
  pub conflict_count : ℕ
  pub ours_line_count : ℕ
  pub theirs_line_count : ℕ
  pub base_line_count : ℕ

unfoldable pub count_lines : List Conflict → ConflictSummary → ConflictSummary
count_lines [] s = s
count_lines (c ∷ cs) s = count_lines cs (record s {
  ours_line_count = s.ours_line_count + length c.ours;
  theirs_line_count = s.theirs_line_count + length c.theirs;
  base_line_count = s.base_line_count + length c.base;
})

unfoldable pub summarize : String → List Conflict → ConflictSummary
unfolding count_lines
summarize path conflicts = count_lines conflicts (record {
  path = path;
  conflict_count = length conflicts;
  ours_line_count = 0;
  theirs_line_count = 0;
  base_line_count = 0;
})
