-- ===== src/Cargo/Index.antt =====
-- crates/ferro-cargo-registry-server/src/index.rs: publish metadata and the sparse-index entry made of it.
pub mod Names
use ferro_protocols.Prelude.{
  ℕ, Bool, true, false, not, List, [], ◌∷◌, map, Option, none, some, if◌then◌else◌,
}
use ferro_protocols.Prelude.Texts.{Text, text_eq}

abbrev pub Features : Type 0
Features = List (Text × List Text)

pub record PublishDep : Type 0 where
  pub name : Text
  pub version_req : Text
  pub features : List Text
  pub optional : Bool
  pub default_features : Bool
  pub target : Option Text
  pub kind : Option Text
  pub registry : Option Text
  pub explicit_name_in_toml : Option Text

pub record PublishManifest : Type 0 where
  pub name : Text
  pub vers : Text
  pub version : Text
  pub deps : List PublishDep
  pub features : Features
  pub links : Option Text
  pub rust_version : Option Text

pub record IndexDep : Type 0 where
  pub name : Text
  pub req : Text
  pub features : List Text
  pub optional : Bool
  pub default_features : Bool
  pub target : Option Text
  pub kind : Option Text
  pub registry : Option Text
  pub package_name : Option Text

pub record IndexEntry : Type 0 where
  pub name : Text
  pub vers : Text
  pub deps : List IndexDep
  pub cksum : Text
  pub features : Features
  pub yanked : Bool
  pub links : Option Text
  pub v : Option ℕ
  pub features2 : Option Features
  pub rust_version : Option Text

-- The alias, where it differs from the registry's name.
abbrev pub renamed : Text → Option Text → Option Text
renamed name none = none
renamed name (some alias) = if text_eq alias name then none else some alias

abbrev pub dep_names : Text → Option Text → Text × Option Text
dep_names name (some alias) = (alias, some name)
dep_names name none = (name, none)

unfoldable pub into_index_dep : PublishDep → IndexDep
into_index_dep d =
    let (name, package_name) = dep_names d.name (renamed d.name d.explicit_name_in_toml) in
    record {
      name = name;
      req = d.version_req;
      features = d.features;
      optional = d.optional;
      default_features = d.default_features;
      target = d.target;
      kind = d.kind;
      registry = d.registry;
      package_name = package_name;
    }

abbrev pub or_version : Text → Text → Text
or_version [] version = version
or_version (c ∷ vers) version = c ∷ vers

unfoldable pub into_index_entry : PublishManifest → Text → IndexEntry
into_index_entry m cksum = record {
  name = m.name;
  vers = or_version m.vers m.version;
  deps = map into_index_dep m.deps;
  cksum = cksum;
  features = m.features;
  yanked = false;
  links = m.links;
  v = some 2;
  features2 = none;
  rust_version = m.rust_version;
}
