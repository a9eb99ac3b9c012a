-- ===== src/Oci/Name/Grammar.antt =====
-- The regular expressions that the head of reference.rs quotes, as sets of texts.
use ferro_protocols.Prelude.{ℕ, zero, suc, ◌≡◌, ◌≤◌, ◌⊎◌, [], ◌∷◌, ◌++◌}
use ferro_protocols.Prelude.Texts.{Text, codes}

abbrev pub Language : Type 1
Language = Text → Type 0

-- One character from a first to a last one.
abbrev pub Range : ℕ → ℕ → Language
Range first last s = (c : ℕ) × ((first ≤ c) × ((c ≤ last) × (s ≡ c ∷ [])))

-- A text itself.
abbrev pub Literal : Text → Language
Literal t s = s ≡ t

-- One expression after another, either of two, and repetitions.
abbrev pub Then : Language → Language → Language
Then P Q s = (a : Text) × (b : Text) × ((s ≡ a ++ b) × (P a × Q b))

abbrev pub Either : Language → Language → Language
Either P Q s = P s ⊎ Q s

abbrev pub Times : Language → ℕ → Language
Times P zero s = s ≡ []
Times P (suc n) s = Then P (Times P n) s

abbrev pub Star : Language → Language
Star P s = (n : ℕ) × Times P n s

abbrev pub Plus : Language → Language
Plus P = Then P (Star P)

abbrev pub Maybe : Language → Language
Maybe P = Either (Literal []) P

-- `[a-z0-9]`
abbrev pub Alnum : Language
Alnum = Either (Range b'a' b'z') (Range b'0' b'9')

-- `[a-z0-9]+`
abbrev pub Run : Language
Run = Plus Alnum

-- `[._]|__|[-]*`
abbrev pub Separator : Language
Separator =
    Either (Either (Literal (codes ".")) (Literal (codes "_")))
      (Either (Literal (codes "__")) (Star (Literal (codes "-"))))

-- `[a-z0-9]+(?:(?:(?:[._]|__|[-]*)[a-z0-9]+)+)?`
abbrev pub Component : Language
Component = Then Run (Maybe (Plus (Then Separator Run)))

-- A component, and any number of them after a slash.
abbrev pub Name : Language
Name = Then Component (Star (Then (Literal (codes "/")) Component))
