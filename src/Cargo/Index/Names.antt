-- ===== src/Cargo/Index/Names.antt =====
-- The two names of a dependency, in publish metadata and in the index.
use ferro_protocols.Prelude.{◌≡◌, refl, Option, none, some, arith, Bool-cases, inl, inr, false}
use ferro_protocols.Prelude.Texts.{Text, text_eq, text_eq_iff}
use ferro_protocols.Cargo.Index.{PublishDep, renamed, dep_names, into_index_dep}

-- The crate that the registry resolves: cargo reads `package`, and `name` where there is none.
abbrev pub or_else : Text → Option Text → Text
or_else name none = name
or_else name (some p) = p

text_eq_sym : (a b : Text) → text_eq a b ≡ false → text_eq b a ≡ false
text_eq_sym a b h = ground (arith, text_eq_iff a b, text_eq_iff b a)

names_of :
    (name : Text) (alias : Option Text)
    → (let r = dep_names name (renamed name alias) in
        (or_else r.0 r.1 ≡ name)
        × ((r.0 ≡ or_else name alias)
            × ((p : Text) → r.1 ≡ some p → text_eq p (or_else name alias) ≡ false)))
names_of name none = (refl, (refl, λ p e. absurd (ground arith)))
names_of name (some alias) = elim (Bool-cases (text_eq alias name)) [
  | inl e ↦ ground (arith, text_eq_iff alias name)
  | inr e ↦ ground (arith, text_eq_sym alias name e)
]

-- In the index entry of a dependency, the crate resolved is the one that the publish metadata
-- names, the name is the local one, and `package` is there only where the two differ.
pub into_index_dep_names :
    (d : PublishDep)
    → (or_else (into_index_dep d).name (into_index_dep d).package_name ≡ d.name)
      × (((into_index_dep d).name ≡ or_else d.name d.explicit_name_in_toml)
          × ((p : Text)
              → (into_index_dep d).package_name ≡ some p
              → text_eq p (or_else d.name d.explicit_name_in_toml) ≡ false))
unfolding into_index_dep
into_index_dep_names d = names_of d.name d.explicit_name_in_toml
