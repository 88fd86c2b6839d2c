-- ===== src/Config/Merger.antt =====
-- internal/domain/config/merger.go: the merge of layers, for packages, files and git; the other
-- sections of the loop write other fields. Merge's error is always nil, and is left out. Where the
-- code keeps a set beside the list that it builds, the set has the list's elements, and the model
-- looks into the list.
pub mod Lists
pub mod Scalars
pub mod Files
use Prim.Native.String.{◌++◌ as str_append}
use preflight.Base.{
  String, Bool, List, Option, [], false, if◌then◌else◌, member, none, some, str_eq, str_leb, ◌++◌,
  ◌||◌, ◌∷◌,
}
use preflight.GoMap.{lookup, put}
use preflight.Config.Layer.{Layer, FileDeclaration, GitConfig, GitInclude, PackageSet}

abbrev pub ProvenanceMap : Type 0
ProvenanceMap = List (String × List (String × String))

-- What the loop over the layers builds.
pub record Merging : Type 0 where
  pub packages : PackageSet
  pub files_map : List (String × FileDeclaration)
  pub git : GitConfig
  pub provenance : ProvenanceMap

pub record MergedConfig : Type 0 where
  pub merged_packages : PackageSet
  pub merged_files : List FileDeclaration
  pub merged_git : GitConfig
  pub sources : ProvenanceMap

abbrev pub or_no_sources : Option (List (String × String)) → List (String × String)
or_no_sources none = []
or_no_sources (some m) = m

unfoldable pub track_provenance : String → String → String → ProvenanceMap → ProvenanceMap
track_provenance path value source p = put path (put value source (or_no_sources (lookup path p))) p

abbrev pub or_no_source : Option String → String
or_no_source none = ""
or_no_source (some source) = source

unfoldable pub get_provenance : MergedConfig → String → String → String
get_provenance m path value = or_no_source (lookup value (or_no_sources (lookup path m.sources)))

-- The loop over one list of packages.
unfoldable pub union_list :
    String → String → List String → List String × ProvenanceMap → List String × ProvenanceMap
unfolding track_provenance
union_list path source [] m = m
union_list path source (x ∷ xs) (merged, p) =
    union_list path source xs
      (if member x merged then merged else merged ++ x ∷ [], track_provenance path x source p)

unfoldable pub merge_packages : Layer → Merging → Merging
unfolding union_list
merge_packages l m =
    let s = l.provenance in
    let n = l.packages in
    let o = m.packages in
    let (formulae, p1) =
      union_list "packages.brew.formulae" s n.brew.formulae (o.brew.formulae, m.provenance) in
    let (casks, p2) = union_list "packages.brew.casks" s n.brew.casks (o.brew.casks, p1) in
    let (taps, p3) = union_list "packages.brew.taps" s n.brew.taps (o.brew.taps, p2) in
    let (ppas, p4) = union_list "packages.apt.ppas" s n.apt.ppas (o.apt.ppas, p3) in
    let (apts, p5) =
      union_list "packages.apt.packages" s n.apt.apt_packages (o.apt.apt_packages, p4) in
    let (npms, p6) = union_list "packages.npm.packages" s n.npm_packages (o.npm_packages, p5) in
    let (tools, p7) = union_list "packages.go.tools" s n.go_tools (o.go_tools, p6) in
    let (pips, p8) = union_list "packages.pip.packages" s n.pip_packages (o.pip_packages, p7) in
    let (gems, p9) = union_list "packages.gem.gems" s n.gems (o.gems, p8) in
    let (crates, p10) = union_list "packages.cargo.crates" s n.crates (o.crates, p9) in
    record m {
      packages = record {
        brew = record { taps = taps; formulae = formulae; casks = casks };
        apt = record { ppas = ppas; apt_packages = apts };
        npm_packages = npms;
        go_tools = tools;
        pip_packages = pips;
        gems = gems;
        crates = crates;
      };
      provenance = p10;
    }

unfoldable pub merge_files : String → List FileDeclaration → Merging → Merging
unfolding track_provenance
merge_files source [] m = m
merge_files source (f ∷ fs) m = merge_files source fs (record m {
  files_map = put f.path f m.files_map;
  provenance = track_provenance "files" f.path source m.provenance;
})

-- `if new != "" { merged = new; track }`
unfoldable pub set_scalar :
    String → String → String → String × ProvenanceMap → String × ProvenanceMap
unfolding track_provenance
set_scalar path source new (old, p) =
    if str_eq new "" then (old, p) else (new, track_provenance path new source p)

unfoldable pub set_flag : String → String → Bool → Bool × ProvenanceMap → Bool × ProvenanceMap
unfolding track_provenance
set_flag path source new (old, p) =
    if new then (new, track_provenance path "true" source p) else (old, p)

unfoldable pub merge_aliases :
    String
    → List (String × String)
    → List (String × String) × ProvenanceMap
    → List (String × String) × ProvenanceMap
unfolding track_provenance
merge_aliases source [] m = m
merge_aliases source ((k, v) ∷ kvs) (aliases, p) =
    merge_aliases source kvs (put k v aliases, track_provenance "git.alias" k source p)

abbrev pub include_key : GitInclude → String
include_key i = str_append i.include_path (str_append "|" i.if_config)

unfoldable pub has_include : String → List GitInclude → Bool
has_include key [] = false
has_include key (i ∷ is) = str_eq (include_key i) key || has_include key is

unfoldable pub merge_includes :
    String → List GitInclude → List GitInclude × ProvenanceMap → List GitInclude × ProvenanceMap
unfolding track_provenance has_include
merge_includes source [] m = m
merge_includes source (i ∷ is) (merged, p) = merge_includes source is (
    if has_include (include_key i) merged
    then (merged, p)
    else (merged ++ i ∷ [], track_provenance "git.includes" i.include_path source p))

unfoldable pub merge_git : Layer → Merging → Merging
unfolding set_scalar set_flag merge_aliases merge_includes
merge_git l m =
    let s = l.provenance in
    let n = l.git in
    let o = m.git in
    let (name, p1) = set_scalar "git.user.name" s n.user.name (o.user.name, m.provenance) in
    let (email, p2) = set_scalar "git.user.email" s n.user.email (o.user.email, p1) in
    let (key, p3) =
      set_scalar "git.user.signingkey" s n.user.signing_key (o.user.signing_key, p2) in
    let (editor, p4) = set_scalar "git.core.editor" s n.core.editor (o.core.editor, p3) in
    let (crlf, p5) = set_scalar "git.core.autocrlf" s n.core.auto_crlf (o.core.auto_crlf, p4) in
    let (excludes, p6) =
      set_scalar "git.core.excludesfile" s n.core.excludes_file (o.core.excludes_file, p5) in
    let (sign, p7) = set_flag "git.commit.gpgsign" s n.gpg_sign (o.gpg_sign, p6) in
    let (format, p8) = set_scalar "git.gpg.format" s n.gpg.format (o.gpg.format, p7) in
    let (program, p9) = set_scalar "git.gpg.program" s n.gpg.program (o.gpg.program, p8) in
    let (source, p10) = set_scalar "git.config_source" s n.config_source (o.config_source, p9) in
    let (aliases, p11) = merge_aliases s n.aliases (o.aliases, p10) in
    let (includes, p12) = merge_includes s n.includes (o.includes, p11) in
    record m {
      git = record {
        user = record { name = name; email = email; signing_key = key };
        core = record { editor = editor; auto_crlf = crlf; excludes_file = excludes };
        gpg_sign = sign;
        gpg = record { format = format; program = program };
        aliases = aliases;
        includes = includes;
        config_source = source;
      };
      provenance = p12;
    }

abbrev pub merge_layer : Layer → Merging → Merging
merge_layer l m = merge_git l (merge_files l.provenance l.files (merge_packages l m))

unfoldable pub merge_layers : List Layer → Merging → Merging
unfolding merge_packages merge_files merge_git
merge_layers [] m = m
merge_layers (l ∷ ls) m = merge_layers ls (merge_layer l m)

unfoldable pub insert_file : FileDeclaration → List FileDeclaration → List FileDeclaration
insert_file f [] = f ∷ []
insert_file f (g ∷ gs) = if str_leb f.path g.path then f ∷ g ∷ gs else g ∷ insert_file f gs

-- The values of the map, sorted by their paths, which are all different.
unfoldable pub sorted_files : List (String × FileDeclaration) → List FileDeclaration
unfolding insert_file
sorted_files [] = []
sorted_files ((k, f) ∷ m) = insert_file f (sorted_files m)

abbrev pub no_packages : PackageSet
no_packages = record {
  brew = record { taps = []; formulae = []; casks = [] };
  apt = record { ppas = []; apt_packages = [] };
  npm_packages = [];
  go_tools = [];
  pip_packages = [];
  gems = [];
  crates = [];
}

abbrev pub no_git : GitConfig
no_git = record {
  user = record { name = ""; email = ""; signing_key = "" };
  core = record { editor = ""; auto_crlf = ""; excludes_file = "" };
  gpg_sign = false;
  gpg = record { format = ""; program = "" };
  aliases = [];
  includes = [];
  config_source = "";
}

abbrev pub new_merging : Merging
new_merging = record { packages = no_packages; files_map = []; git = no_git; provenance = [] }

-- What follows the loop.
abbrev pub merged_config : Merging → MergedConfig
merged_config m = record {
  merged_packages = m.packages;
  merged_files = sorted_files m.files_map;
  merged_git = m.git;
  sources = m.provenance;
}

unfoldable pub merge : List Layer → MergedConfig
unfolding merge_layers sorted_files
merge layers = merged_config (merge_layers layers new_merging)
