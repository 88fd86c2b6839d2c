-- ===== src/Plugin/Constraint.antt =====
-- internal/domain/plugin/resolver.go: constraints on versions. The module golang.org/x/mod/semver is
-- a parameter: `IsValid`, `Compare` and `Major`.
use preflight.GoMap.{is_some}
use Prim.Native.Nat.{Ordering}
use Prim.Native.Char.{code}
use Prim.Native.String.{◌++◌ as str_append}
use preflight.Base.{
  String, Bool, List, Option, [], false, if◌then◌else◌, none, not, some, split_on, str_eq,
  trim_space, true, ◌&&◌, ◌==◌, ◌||◌, ◌∷◌,
}

pub record Semver : Type 0 where
  pub is_valid : String → Bool
  pub compare_versions : String → String → Ordering
  pub major : String → String

-- `strings.TrimPrefix` with its test: `none` where the text does not begin with the prefix.
unfoldable pub strip_prefix : String → String → Option String
strip_prefix String.[] s = some s
strip_prefix (String.◌∷◌ a p) String.[] = none
strip_prefix (String.◌∷◌ a p) (String.◌∷◌ b s) =
    let rest = strip_prefix p s in if code a == code b then rest else none

-- `if !strings.HasPrefix(v, "v") { v = "v" + v }`
abbrev pub with_v : String → String
with_v v = if is_some (strip_prefix "v" v) then v else str_append "v" v

pub data Op : Type 0 where
  op_ge op_le op_gt op_lt op_caret op_tilde op_eq : Op

abbrev pub or_op : Op → Option String → Op × String → Op × String
or_op op none rest = rest
or_op op (some cv) rest = (op, cv)

-- The `switch` on the prefixes, in their order.
abbrev pub parse_constraint : String → Op × String
parse_constraint c = or_op op_ge (strip_prefix ">=" c) (
    or_op op_le (strip_prefix "<=" c) (
      or_op op_gt (strip_prefix ">" c) (
        or_op op_lt (strip_prefix "<" c) (
          or_op op_caret (strip_prefix "^" c)
            (or_op op_tilde (strip_prefix "~" c) (or_op op_eq (strip_prefix "=" c) (op_eq, c)))))))

abbrev pub is_eq_order : Ordering → Bool
is_eq_order Ordering.eq = true
is_eq_order _ = false

abbrev pub is_gt_order : Ordering → Bool
is_gt_order Ordering.gt = true
is_gt_order _ = false

abbrev pub is_lt_order : Ordering → Bool
is_lt_order Ordering.lt = true
is_lt_order _ = false

abbrev pub minor_of : List String → String
minor_of [] = ""
minor_of (a ∷ []) = a
minor_of (a ∷ b ∷ rest) = str_append a (str_append "." b)

abbrev pub or_whole : String → Option String → String
or_whole v none = v
or_whole v (some rest) = rest

unfoldable pub semver_minor : String → String
semver_minor v = minor_of (split_on b'.' (or_whole v (strip_prefix "v" v)))

unfoldable pub holds_op : Semver → Op → String → String → Bool
unfolding semver_minor
holds_op sv op_eq v cv = is_eq_order (sv.compare_versions v cv)
holds_op sv op_gt v cv = is_gt_order (sv.compare_versions v cv)
holds_op sv op_ge v cv = not (is_lt_order (sv.compare_versions v cv))
holds_op sv op_lt v cv = is_lt_order (sv.compare_versions v cv)
holds_op sv op_le v cv = not (is_gt_order (sv.compare_versions v cv))
holds_op sv op_caret v cv =
    not (is_lt_order (sv.compare_versions v cv)) && str_eq (sv.major v) (sv.major cv)
holds_op sv op_tilde v cv =
    not (is_lt_order (sv.compare_versions v cv))
    && (str_eq (sv.major v) (sv.major cv) && str_eq (semver_minor v) (semver_minor cv))

unfoldable pub satisfies_version_constraint : Semver → String → String → Bool
unfolding holds_op
satisfies_version_constraint sv version constraint =
    if str_eq constraint "" || str_eq version ""
    then true
    else (let (op, raw) = parse_constraint constraint in
        let v = with_v version in
        let cv = with_v (trim_space raw) in
        if not (sv.is_valid v) || not (sv.is_valid cv) then false else holds_op sv op v cv)

-- The prefixes are tried in the same order as above, and a text without one is trimmed as a whole.
unfoldable pub extract_version : String → String
extract_version constraint = trim_space (parse_constraint constraint).1

unfoldable pub compare_version_constraints : Semver → String → String → Ordering
unfolding extract_version
compare_version_constraints sv c1 c2 =
    sv.compare_versions (with_v (extract_version c1)) (with_v (extract_version c2))
