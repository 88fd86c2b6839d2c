-- ===== src/Config/Merger/Files.antt =====
-- The files of a merged configuration.
use preflight.Base.{
  String, All, Bool-cases, List, Option, [], ap, arith, eq_iff, if◌then◌else◌, inl, inr, none, refl,
  some, str_eq, subst, ◌∙◌, ◌∷◌, ◌≡◌, Option-cases, false, sym,
}
use preflight.GoMap.Laws.{put-IsMap, lookup-put}
use preflight.GoMap.{has, IsMap, lookup, put}
use preflight.Config.Merger.{
  Merging, insert_file, merge, merge_git, merge_layer, merge_layers, merge_packages, new_merging,
  merge_files, sorted_files,
}
use preflight.Config.Layer.{FileDeclaration, Layer}

-- The file that is listed under a path.
unfoldable pub find_file : String → List FileDeclaration → Option FileDeclaration
find_file k [] = none
find_file k (f ∷ fs) = if str_eq f.path k then some f else find_file k fs

abbrev pub newer_file : Option FileDeclaration → Option FileDeclaration → Option FileDeclaration
newer_file none old = old
newer_file (some f) old = some f

-- The last declaration of a path in a layer, and in all layers.
abbrev pub last_file : String → List FileDeclaration → Option FileDeclaration
last_file k [] = none
last_file k (f ∷ fs) = newer_file (last_file k fs) (if str_eq f.path k then some f else none)

abbrev pub last_declared : String → List Layer → Option FileDeclaration
last_declared k [] = none
last_declared k (l ∷ ls) = newer_file (last_declared k ls) (last_file k l.files)

newer_file_assoc :
    (a b c : Option FileDeclaration) → newer_file a (newer_file b c) ≡ newer_file (newer_file a b) c
newer_file_assoc none b c = refl
newer_file_assoc (some f) b c = refl

one_file :
    (k : String) (f : FileDeclaration) (m : List (String × FileDeclaration))
    → lookup k (put f.path f m) ≡ newer_file (if str_eq f.path k then some f else none) (lookup k m)
one_file k f m = elim (Bool-cases (str_eq f.path k)) [
  | inl e ↦ lookup-put k f.path f m ∙ rw e refl
  | inr e ↦ lookup-put k f.path f m ∙ rw e refl
]

merge_files-lookup :
    (k source : String) (fs : List FileDeclaration) (m : Merging)
    → lookup k (merge_files source fs m).files_map
      ≡ newer_file (last_file k fs) (lookup k m.files_map)
unfolding merge_files
merge_files-lookup k source [] m = refl
merge_files-lookup k source (f ∷ fs) m =
    merge_files-lookup k source fs _
    ∙ (ap (newer_file (last_file k fs)) (one_file k f m.files_map)
        ∙ newer_file_assoc (last_file k fs) (if str_eq f.path k then some f else none)
            (lookup k m.files_map))

-- Each file stands under its own path, and each path is there once.
abbrev IsOwn : String × FileDeclaration → Type 0
IsOwn (k, f) = k ≡ f.path

abbrev IsFiles : List (String × FileDeclaration) → Type 0
IsFiles m = IsMap m × All IsOwn m

put-IsOwn :
    (f : FileDeclaration) (m : List (String × FileDeclaration))
    → All IsOwn m
    → All IsOwn (put f.path f m)
unfolding put
put-IsOwn f [] h = (refl, tt)
put-IsOwn f ((j, g) ∷ m) h = ground (arith, eq_iff j f.path, put-IsOwn f m)

merge_files-IsFiles :
    (source : String) (fs : List FileDeclaration) (m : Merging)
    → IsFiles m.files_map
    → IsFiles (merge_files source fs m).files_map
unfolding merge_files
merge_files-IsFiles source [] m h = h
merge_files-IsFiles source (f ∷ fs) m (once, own) =
    merge_files-IsFiles source fs _
      (put-IsMap f.path f m.files_map once, put-IsOwn f m.files_map own)

insert_file_lem :
    (k : String) (f : FileDeclaration) (gs : List FileDeclaration)
    → find_file f.path gs ≡ none
    → find_file k (insert_file f gs) ≡ (if str_eq f.path k then some f else find_file k gs)
unfolding insert_file find_file
insert_file_lem k f [] h = refl
insert_file_lem k f (g ∷ gs) h =
    ground (arith, insert_file_lem k f gs, eq_iff f.path k, eq_iff g.path k, eq_iff g.path f.path)

absent : (k : String) (m : List (String × FileDeclaration)) → has k m ≡ false → lookup k m ≡ none
absent k m fresh = elim (Option-cases (lookup k m)) [ inl e ↦ e | inr (f, e) ↦ cc ]

sorted_files_lem :
    (k : String) (m : List (String × FileDeclaration))
    → IsFiles m
    → find_file k (sorted_files m) ≡ lookup k m
unfolding sorted_files find_file lookup
sorted_files_lem k [] h = refl
sorted_files_lem k ((j, f) ∷ m) ((fresh, once), (own, all)) =
    insert_file_lem k f (sorted_files m) (
      sorted_files_lem f.path m (once, all) ∙ subst (λ p. lookup p m ≡ none) own (absent j m fresh))
    ∙ rw (own, sorted_files_lem k m (once, all)) refl

merge_packages-files : (l : Layer) (m : Merging) → (merge_packages l m).files_map ≡ m.files_map
unfolding merge_packages
merge_packages-files l m = refl

merge_git-files : (l : Layer) (m : Merging) → (merge_git l m).files_map ≡ m.files_map
unfolding merge_git
merge_git-files l m = refl

layer_files :
    (l : Layer) (m : Merging)
    → (merge_layer l m).files_map
      ≡ (merge_files l.provenance l.files (merge_packages l m)).files_map
layer_files l m = merge_git-files l (merge_files l.provenance l.files (merge_packages l m))

layer_lem :
    (k : String) (l : Layer) (m : Merging)
    → lookup k (merge_layer l m).files_map ≡ newer_file (last_file k l.files) (lookup k m.files_map)
layer_lem k l m =
    ap (lookup k) (layer_files l m)
    ∙ (merge_files-lookup k l.provenance l.files (merge_packages l m)
        ∙ ap (λ files. newer_file (last_file k l.files) (lookup k files))
            (merge_packages-files l m))

layer-IsFiles :
    (l : Layer) (m : Merging) → IsFiles m.files_map → IsFiles (merge_layer l m).files_map
layer-IsFiles l m h = subst IsFiles (sym (layer_files l m)) (
    merge_files-IsFiles l.provenance l.files (merge_packages l m)
      (subst IsFiles (sym (merge_packages-files l m)) h))

layers_lem :
    (k : String) (ls : List Layer) (m : Merging)
    → lookup k (merge_layers ls m).files_map
      ≡ newer_file (last_declared k ls) (lookup k m.files_map)
unfolding merge_layers
layers_lem k [] m = refl
layers_lem k (l ∷ ls) m =
    layers_lem k ls (merge_layer l m)
    ∙ (ap (newer_file (last_declared k ls)) (layer_lem k l m)
        ∙ newer_file_assoc (last_declared k ls) (last_file k l.files) (lookup k m.files_map))

layers-IsFiles :
    (ls : List Layer) (m : Merging) → IsFiles m.files_map → IsFiles (merge_layers ls m).files_map
unfolding merge_layers
layers-IsFiles [] m h = h
layers-IsFiles (l ∷ ls) m h = layers-IsFiles ls (merge_layer l m) (layer-IsFiles l m h)

newer_none : (f : Option FileDeclaration) → newer_file f none ≡ f
newer_none none = refl
newer_none (some f) = refl

-- Under each path a merged configuration has the last declaration that the layers have for it, and
-- none if they have none.
pub find_file-merge :
    (k : String) (ls : List Layer) → find_file k (merge ls).merged_files ≡ last_declared k ls
unfolding merge lookup
find_file-merge k ls =
    sorted_files_lem k (merge_layers ls new_merging).files_map
      (layers-IsFiles ls new_merging (tt, tt))
    ∙ (layers_lem k ls new_merging ∙ newer_none (last_declared k ls))
