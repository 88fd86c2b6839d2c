-- ===== src/Config/Merger/Lists.antt =====
-- The lists of packages in a merged configuration.
use preflight.Base.{String, List, [], if◌then◌else◌, member, ◌++◌, ◌∷◌}
use preflight.Config.Layer.{Layer, PackageSet}

-- The lists that are merged to unions.
pub data PackageList : Type 0 where
  taps_list formulae_list casks_list ppas_list apt_list npm_list go_list pip_list gem_list
        cargo_list :
      PackageList

abbrev pub list_of : PackageList → PackageSet → List String
list_of taps_list p = p.brew.taps
list_of formulae_list p = p.brew.formulae
list_of casks_list p = p.brew.casks
list_of ppas_list p = p.apt.ppas
list_of apt_list p = p.apt.apt_packages
list_of npm_list p = p.npm_packages
list_of go_list p = p.go_tools
list_of pip_list p = p.pip_packages
list_of gem_list p = p.gems
list_of cargo_list p = p.crates

-- The lists of all layers, one behind the other.
abbrev pub gather : PackageList → List Layer → List String
gather k [] = []
gather k (l ∷ ls) = list_of k l.packages ++ gather k ls

-- Each name where it stands first, without those that have been seen.
unfoldable pub first_each : List String → List String → List String
first_each seen [] = []
first_each seen (x ∷ xs) =
    let rest = first_each seen xs in
    let more = first_each (x ∷ seen) xs in if member x seen then rest else x ∷ more

-- The union alone, without the sources.
unfoldable append_new : List String → List String → List String
append_new merged [] = merged
append_new merged (x ∷ xs) = append_new (if member x merged then merged else merged ++ x ∷ []) xs
