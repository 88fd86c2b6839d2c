-- ===== src/Config/Merger/Scalars.antt =====
-- The single values of git in a merged configuration.
use preflight.Base.{
  String, Bool-cases, List, [], ap, arith, eq_iff, if◌then◌else◌, inl, inr, refl, str_eq, sym, ◌∙◌,
  ◌∷◌, ◌≡◌,
}
use preflight.Config.Layer.{Layer, FileDeclaration, GitConfig}
use preflight.Config.Merger.{
  merge, Merging, ProvenanceMap, merge_files, merge_git, merge_layer, merge_layers, merge_packages,
  new_merging, no_git,
}

pub data GitScalar : Type 0 where
  user_name user_email user_key core_editor core_crlf core_excludes gpg_format gpg_program
        git_source :
      GitScalar

abbrev pub scalar_of : GitScalar → GitConfig → String
scalar_of user_name g = g.user.name
scalar_of user_email g = g.user.email
scalar_of user_key g = g.user.signing_key
scalar_of core_editor g = g.core.editor
scalar_of core_crlf g = g.core.auto_crlf
scalar_of core_excludes g = g.core.excludes_file
scalar_of gpg_format g = g.gpg.format
scalar_of gpg_program g = g.gpg.program
scalar_of git_source g = g.config_source

-- The value of the last layer that has one.
abbrev pub last_set : GitScalar → List Layer → String
last_set k [] = ""
last_set k (l ∷ ls) = let rest = last_set k ls in if str_eq rest "" then scalar_of k l.git else rest

abbrev newer : String → String → String
newer new old = if str_eq new "" then old else new

newer_lem :
    (new old : String) (p q : ProvenanceMap)
    → (if◌then◌else◌ {A = String × ProvenanceMap} (str_eq new "") (old, p) (new, q)).0
      ≡ newer new old
newer_lem new old p q = elim (Bool-cases (str_eq new "")) [ inl e ↦ rw e refl | inr e ↦ rw e refl ]

merge_files-git :
    (source : String) (fs : List FileDeclaration) (m : Merging)
    → (merge_files source fs m).git ≡ m.git
unfolding merge_files
merge_files-git source [] m = refl
merge_files-git source (f ∷ fs) m = merge_files-git source fs _

git_lem :
    (k : GitScalar) (l : Layer) (m : Merging)
    → scalar_of k (merge_git l m).git ≡ newer (scalar_of k l.git) (scalar_of k m.git)
unfolding merge_git
git_lem user_name l m = newer_lem l.git.user.name m.git.user.name _ _
git_lem user_email l m = newer_lem l.git.user.email m.git.user.email _ _
git_lem user_key l m = newer_lem l.git.user.signing_key m.git.user.signing_key _ _
git_lem core_editor l m = newer_lem l.git.core.editor m.git.core.editor _ _
git_lem core_crlf l m = newer_lem l.git.core.auto_crlf m.git.core.auto_crlf _ _
git_lem core_excludes l m = newer_lem l.git.core.excludes_file m.git.core.excludes_file _ _
git_lem gpg_format l m = newer_lem l.git.gpg.format m.git.gpg.format _ _
git_lem gpg_program l m = newer_lem l.git.gpg.program m.git.gpg.program _ _
git_lem git_source l m = newer_lem l.git.config_source m.git.config_source _ _

merge_packages-git : (l : Layer) (m : Merging) → (merge_packages l m).git ≡ m.git
unfolding merge_packages
merge_packages-git l m = refl

layer_lem :
    (k : GitScalar) (l : Layer) (m : Merging)
    → scalar_of k (merge_layer l m).git ≡ newer (scalar_of k l.git) (scalar_of k m.git)
layer_lem k l m =
    git_lem k l (merge_files l.provenance l.files (merge_packages l m))
    ∙ ap (λ g. newer (scalar_of k l.git) (scalar_of k g))
        (merge_files-git l.provenance l.files (merge_packages l m) ∙ merge_packages-git l m)

layers_lem :
    (k : GitScalar) (ls : List Layer) (m : Merging)
    → scalar_of k (merge_layers ls m).git ≡ newer (last_set k ls) (scalar_of k m.git)
unfolding merge_layers
layers_lem k [] m = refl
layers_lem k (l ∷ ls) m =
    layers_lem k ls (merge_layer l m)
    ∙ (ap (newer (last_set k ls)) (layer_lem k l m) ∙ ground arith)

no_scalar : (k : GitScalar) → scalar_of k no_git ≡ ""
no_scalar user_name = refl
no_scalar user_email = refl
no_scalar user_key = refl
no_scalar core_editor = refl
no_scalar core_crlf = refl
no_scalar core_excludes = refl
no_scalar gpg_format = refl
no_scalar gpg_program = refl
no_scalar git_source = refl

newer_empty : (s : String) → newer s "" ≡ s
newer_empty s = elim (Bool-cases (str_eq s "")) [
  | inl e ↦ rw e (sym ((eq_iff s "").0 e))
  | inr e ↦ rw e refl
]

-- Each of the nine texts of git in a merged configuration is that of the last layer in which it is
-- not empty, and is empty if there is none.
pub merge_scalars :
    (k : GitScalar) (ls : List Layer) → scalar_of k (merge ls).merged_git ≡ last_set k ls
unfolding merge
merge_scalars k ls =
    layers_lem k ls new_merging
    ∙ (ap (newer (last_set k ls)) (no_scalar k) ∙ newer_empty (last_set k ls))
