-- ===== src/Config/Layer.antt =====
-- internal/domain/config/layer.go: the sections of a layer on packages, files and git. A file's mode
-- is Go's string type, a text.
use preflight.Base.{String, Bool, List}

pub record FileDeclaration : Type 0 where
  pub path : String
  pub mode : String
  pub template : String

pub record BrewPackages : Type 0 where
  pub taps : List String
  pub formulae : List String
  pub casks : List String

pub record AptPackages : Type 0 where
  pub ppas : List String
  pub apt_packages : List String

-- The sections of one list: npm, go, pip, gem and cargo.
pub record PackageSet : Type 0 where
  pub brew : BrewPackages
  pub apt : AptPackages
  pub npm_packages : List String
  pub go_tools : List String
  pub pip_packages : List String
  pub gems : List String
  pub crates : List String

pub record GitUserConfig : Type 0 where
  pub name : String
  pub email : String
  pub signing_key : String

pub record GitCoreConfig : Type 0 where
  pub editor : String
  pub auto_crlf : String
  pub excludes_file : String

pub record GitGpgConfig : Type 0 where
  pub format : String
  pub program : String

pub record GitInclude : Type 0 where
  pub include_path : String
  pub if_config : String

pub record GitConfig : Type 0 where
  pub user : GitUserConfig
  pub core : GitCoreConfig
  pub gpg_sign : Bool
  pub gpg : GitGpgConfig
  pub aliases : List (String × String)
  pub includes : List GitInclude
  pub config_source : String

pub record Layer : Type 0 where
  pub provenance : String
  pub packages : PackageSet
  pub files : List FileDeclaration
  pub git : GitConfig
