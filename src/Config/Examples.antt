-- ===== src/Config/Examples.antt =====
-- A base layer and one for work: the theorems at concrete layers.
use preflight.Base.{[], refl, ◌∷◌, ◌≡◌, some}
use preflight.GoMap.{lookup, put}
use preflight.Config.Layer.{Layer}
use preflight.Config.Merger.{
  merge, get_provenance, merge_aliases, merge_files, merge_git, merge_includes, merge_layers,
  merge_packages, no_git, no_packages, set_flag, set_scalar, track_provenance, union_list,
}
use preflight.Config.Merger.Files.{find_file, find_file-merge}
use preflight.Config.Merger.Scalars.{merge_scalars, user_email, last_set, scalar_of}

abbrev base : Layer
base = record {
  provenance = "layers/base.yaml";
  packages = record no_packages {
    brew = record { taps = []; formulae = "git" ∷ "jq" ∷ []; casks = [] };
  };
  files = record { path = ".zshrc"; mode = "generated"; template = "" } ∷ [];
  git = record no_git { user = record { name = "Ada"; email = "ada@home"; signing_key = "" } };
}

abbrev work : Layer
work = record {
  provenance = "layers/work.yaml";
  packages = record no_packages {
    brew = record { taps = []; formulae = "go" ∷ "git" ∷ []; casks = [] };
  };
  files = record { path = ".zshrc"; mode = "byo"; template = "" } ∷ [];
  git = record no_git { user = record { name = ""; email = "ada@work"; signing_key = "" } };
}

merge_scalars_example :
    scalar_of user_email (merge (base ∷ work ∷ [])).merged_git
    ≡ last_set user_email (base ∷ work ∷ [])
merge_scalars_example = merge_scalars user_email (base ∷ work ∷ [])

find_file-merge_example :
    find_file ".zshrc" (merge (base ∷ work ∷ [])).merged_files
    ≡ some (record { path = ".zshrc"; mode = "byo"; template = "" })
find_file-merge_example = find_file-merge ".zshrc" (base ∷ work ∷ [])

-- The formulae, and the source of git.
merged_formulae :
    (merge (base ∷ work ∷ [])).merged_packages.brew.formulae ≡ "git" ∷ "jq" ∷ "go" ∷ []
unfolding merge merge_layers merge_packages merge_files merge_git union_list set_scalar set_flag
    merge_aliases merge_includes
merged_formulae = refl

git_source_of_work :
    get_provenance (merge (base ∷ work ∷ [])) "packages.brew.formulae" "git" ≡ "layers/work.yaml"
unfolding merge merge_layers merge_packages merge_files merge_git union_list set_scalar set_flag
    merge_aliases merge_includes get_provenance track_provenance lookup put
git_source_of_work = refl
