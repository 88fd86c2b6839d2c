-- ===== src/Merge/RoundTrip.antt =====
-- Reading back a whole-file conflict, and resolving it.
use mathlib.Core.List.{append-nil}
use preflight.Base.{
  String, All, List, [], length, refl, ℕ, ◌++◌, ◌+◌, ◌∷◌, ◌≡◌, Bool, arith, false, none, ◌-◌, ap,
  length-append, ◌∙◌, eq_iff, map, str_eq, ◌≢◌, not,
}
use preflight.Merge.{
  three_way_merge, Conflict, Parsing, Resolution, Resolving, in_base, in_ours, in_theirs, kind_of,
  no_section, parse_lines, resolve_lines, split_lines, ConflictStyle, base_lines, conflict_lines,
  diff3, end_line, git, middle_line, resolve_base, resolve_ours, resolve_theirs, whole_file,
  base_line, is_base, is_ours, is_theirs, format_whole_file_conflict, new_conflict_result,
  parse_conflict_regions, resolve_all_conflicts, unsplit_lines, detect_change_type,
  needs_manual_resolution, new_clean_result,
}
use preflight.Merge.Lines.{IsLine, split_lines-IsLine, split_lines-join_lines, IsLine-append}
use preflight.Merge.Plain.{inside, IsQuiet, kept, parse_lines-plain, resolve_lines-plain, resolving}

-- The base lines that the style writes.
abbrev pub shown_base : ConflictStyle → List String → List String
shown_base git lines = []
shown_base diff3 lines = lines

module _ (base ours theirs : String) where
  abbrev at_end : ConflictStyle → ℕ → List Conflict
  at_end style n =
      record (whole_file base ours theirs) { end = n; base = shown_base style (split_lines base) }
      ∷ []

  abbrev end_of : ConflictStyle → ℕ
  end_of style = length (conflict_lines (whole_file base ours theirs) style) - 1

  abbrev from_ours : Conflict
  from_ours = record { start = 0; end = 0; base = []; ours = split_lines ours; theirs = [] }

  abbrev last_part : List String
  last_part = split_lines theirs ++ end_line ∷ []

  parse_after_ours :
      (style : ConflictStyle)
      → IsQuiet base
      → IsQuiet theirs
      → (parse_lines
          (1 + length (split_lines ours))
          (base_lines style (split_lines base) ++ middle_line ∷ last_part)
          (inside [] from_ours in_ours)).conflicts
        ≡ at_end style (end_of style)
  unfolding parse_lines kind_of
  parse_after_ours git quiet_base quiet_theirs =
      let o = split_lines ours in
      let t = split_lines theirs in
      ap (λ (p : Parsing). p.conflicts)
        (parse_lines-plain (1 + length o + 1) t (end_line ∷ []) [] from_ours in_theirs quiet_theirs)
      ∙ ap (at_end git) (
          omega (arith, length-append o (middle_line ∷ last_part), length-append t (end_line ∷ [])))
  parse_after_ours diff3 quiet_base quiet_theirs =
      let o = split_lines ours in
      let b = split_lines base in
      let t = split_lines theirs in
      ap (λ (p : Parsing). p.conflicts)
        (parse_lines-plain (1 + length o + 1) b (middle_line ∷ last_part) [] from_ours in_base
            quiet_base
          ∙ parse_lines-plain (1 + length o + 1 + length b + 1) t (end_line ∷ []) []
              (record from_ours { base = b }) in_theirs quiet_theirs)
      ∙ ap (at_end diff3) (
          omega (
            arith,
            length-append o (base_line ∷ b ++ middle_line ∷ last_part),
            length-append b (middle_line ∷ last_part),
            length-append t (end_line ∷ []),
          ))

  parse_conflict_lines :
      (style : ConflictStyle)
      → IsQuiet base
      → IsQuiet ours
      → IsQuiet theirs
      → (parse_lines 0
          (conflict_lines (whole_file base ours theirs) style)
          (record { conflicts = []; current = none; section = no_section })).conflicts
        ≡ at_end style (end_of style)
  unfolding parse_lines kind_of
  parse_conflict_lines style quiet_base quiet_ours quiet_theirs =
      ap (λ (p : Parsing). p.conflicts)
        (parse_lines-plain 1 (split_lines ours)
          (base_lines style (split_lines base) ++ middle_line ∷ last_part) []
          (record { start = 0; end = 0; base = []; ours = []; theirs = [] }) in_ours quiet_ours)
      ∙ parse_after_ours style quiet_base quiet_theirs

  -- The lines of the side that is chosen.
  abbrev pub side_lines : Resolution → ConflictStyle → List String
  side_lines resolve_ours style = split_lines ours
  side_lines resolve_theirs style = split_lines theirs
  side_lines resolve_base style = shown_base style (split_lines base)

  git_side :
      (res : Resolution)
      → kept (is_ours res) (split_lines ours) ++ kept (is_theirs res) (split_lines theirs)
        ≡ side_lines res git
  git_side resolve_ours = rw append-nil refl
  git_side resolve_theirs = refl
  git_side resolve_base = refl

  diff3_side :
      (res : Resolution)
      → (kept (is_ours res) (split_lines ours) ++ kept (is_base res) (split_lines base))
          ++ kept (is_theirs res) (split_lines theirs)
        ≡ side_lines res diff3
  diff3_side resolve_ours = rw (append-nil, append-nil) refl
  diff3_side resolve_theirs = refl
  diff3_side resolve_base = rw append-nil refl

  resolve_last_part :
      (res : Resolution) (out : List String) (k : Bool)
      → IsQuiet theirs
      → (resolve_lines res (middle_line ∷ last_part) (resolving out k)).result
        ≡ out ++ kept (is_theirs res) (split_lines theirs)
  unfolding resolve_lines kind_of
  resolve_last_part res out k quiet_theirs =
      ap (λ (r : Resolving). r.result)
        (resolve_lines-plain res (split_lines theirs) (end_line ∷ []) out (is_theirs res)
          quiet_theirs)

  resolve_conflict_lines :
      (style : ConflictStyle) (res : Resolution)
      → IsQuiet base
      → IsQuiet ours
      → IsQuiet theirs
      → (resolve_lines res
          (conflict_lines (whole_file base ours theirs) style)
          (record { result = []; in_conflict = false; keeping = false })).result
        ≡ side_lines res style
  unfolding resolve_lines kind_of
  resolve_conflict_lines git res quiet_base quiet_ours quiet_theirs =
      let k = is_ours res in
      let o = split_lines ours in
      ap (λ (r : Resolving). r.result)
        (resolve_lines-plain res o (middle_line ∷ last_part) [] k quiet_ours)
      ∙ resolve_last_part res (kept k o) k quiet_theirs
      ∙ git_side res
  resolve_conflict_lines diff3 res quiet_base quiet_ours quiet_theirs =
      let k = is_ours res in
      let o = split_lines ours in
      let b = split_lines base in
      ap (λ (r : Resolving). r.result)
        (resolve_lines-plain res o (base_line ∷ b ++ middle_line ∷ last_part) [] k quiet_ours
          ∙ resolve_lines-plain res b (middle_line ∷ last_part) (kept k o) (is_base res) quiet_base)
      ∙ resolve_last_part res (kept k o ++ kept (is_base res) b) (is_base res) quiet_theirs
      ∙ diff3_side res

  conflict_lines-IsLine :
      (style : ConflictStyle) → All IsLine (conflict_lines (whole_file base ours theirs) style)
  conflict_lines-IsLine git = (
    refl,
    IsLine-append (split_lines ours) (middle_line ∷ last_part) (split_lines-IsLine ours) (
      refl,
      IsLine-append (split_lines theirs) (end_line ∷ []) (split_lines-IsLine theirs) (refl, tt),
    ),
  )
  conflict_lines-IsLine diff3 = (
    refl,
    IsLine-append (split_lines ours) (base_line ∷ split_lines base ++ middle_line ∷ last_part)
        (split_lines-IsLine ours)
        (
          refl,
          IsLine-append (split_lines base) (middle_line ∷ last_part) (split_lines-IsLine base) (
            refl,
            IsLine-append (split_lines theirs) (end_line ∷ []) (split_lines-IsLine theirs)
                (refl, tt),
          ),
        ),
  )

  content_lines :
      (style : ConflictStyle)
      → split_lines (format_whole_file_conflict (whole_file base ours theirs) style)
        ≡ conflict_lines (whole_file base ours theirs) style
  unfolding format_whole_file_conflict
  content_lines style = let h = conflict_lines-IsLine style in split_lines-join_lines _ _ h

  -- The three texts differ from one another.
  abbrev pub IsDiverged : Type 0
  IsDiverged = (base ≢ ours) × (base ≢ theirs) × (ours ≢ theirs)

  diverged :
      (style : ConflictStyle)
      → IsDiverged
      → three_way_merge base ours theirs style
        ≡ new_conflict_result
            (format_whole_file_conflict (whole_file base ours theirs) style)
            (record (whole_file base ours theirs) { end = end_of style } ∷ [])
  unfolding three_way_merge
  diverged style (p, q, r) =
      let first : str_eq base ours ≡ false = ground (arith, eq_iff base ours) in
      let second : str_eq base theirs ≡ false = ground (arith, eq_iff base theirs) in
      let third : str_eq ours theirs ≡ false = ground (arith, eq_iff ours theirs) in
      rw (first, second, third, content_lines style) refl

  -- If the three texts differ and no line of theirs looks like a marker, reading the merged text
  -- back gives the conflict that the merge reports, with the base lines only if the style writes them.
  pub parse-three_way_merge :
      (style : ConflictStyle)
      → IsDiverged
      → IsQuiet base
      → IsQuiet ours
      → IsQuiet theirs
      → parse_conflict_regions (three_way_merge base ours theirs style).content
        ≡ map {A = Conflict}
            (λ c. record c { base = shown_base style c.base })
            (three_way_merge base ours theirs style).conflicts
  unfolding parse_conflict_regions new_conflict_result
  parse-three_way_merge style apart quiet_base quiet_ours quiet_theirs =
      let read = parse_conflict_lines style quiet_base quiet_ours quiet_theirs in
      let start : Parsing = record { conflicts = []; current = none; section = no_section } in
      rw (diverged style apart)
        (ap (λ ls. (parse_lines 0 ls start).conflicts) (content_lines style) ∙ read)

  -- If the three texts differ and no line of theirs looks like a marker, resolving the merged text
  -- to a side gives the lines of that side: for the base, none if the style does not write them.
  pub resolve-three_way_merge :
      (style : ConflictStyle) (res : Resolution)
      → IsDiverged
      → IsQuiet base
      → IsQuiet ours
      → IsQuiet theirs
      → resolve_all_conflicts (three_way_merge base ours theirs style).content res
        ≡ unsplit_lines (side_lines res style)
  unfolding resolve_all_conflicts new_conflict_result
  resolve-three_way_merge style res apart quiet_base quiet_ours quiet_theirs =
      let resolved = resolve_conflict_lines style res quiet_base quiet_ours quiet_theirs in
      let start : Resolving = record { result = []; in_conflict = false; keeping = false } in
      rw (diverged style apart) (
        ap unsplit_lines
          (ap (λ ls. (resolve_lines res ls start).result) (content_lines style) ∙ resolved))

-- A merge has conflicts, and is not clean, exactly if the change needs a manual resolution.
pub three_way_merge-detect :
    (base ours theirs : String) (style : ConflictStyle)
    → ((three_way_merge base ours theirs style).has_conflicts
        ≡ needs_manual_resolution (detect_change_type base ours theirs))
      × ((three_way_merge base ours theirs style).clean_merge
          ≡ not (needs_manual_resolution (detect_change_type base ours theirs)))
unfolding three_way_merge new_clean_result new_conflict_result detect_change_type
    needs_manual_resolution
three_way_merge-detect base ours theirs style = (ground arith, ground arith)
