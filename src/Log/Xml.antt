-- ===== src/Log/Xml.antt =====
-- ReadXml (Gamnet/Log/Log.cpp): the log from a file of settings. The tree that boost reads is the
-- argument; `none` is an attribute that is missing, or a size that is no number, where `get` throws.
use gamnet.Prelude.{
  ℕ, ◌+◌, ◌==◌, ◌≡◌, refl, ◌∙◌, inl, inr, Bool-cases, false, if◌then◌else◌, List, [], ◌∷◌, Option,
  none, some, Option-cases, Outcome, ok, ◌>>=◌, Error, system_error,
}
use gamnet.MsgRouter.{string_eq}
use gamnet.Log.{
  Io, Logger, Level, log_level_min, log_level_dev, log_level_inf, log_level_wrn, log_level_err,
  init, set_level_property, assign, index,
}

-- A child of `server.log` with its attributes
pub record Element : Type 0 where
  pub tag : List ℕ
  pub console : Option (List ℕ)
  pub file : Option (List ℕ)
  pub sys : Option (List ℕ)

pub record Xml : Type 0 where
  pub path : Option (List ℕ)
  pub log_prefix : Option (List ℕ)
  pub max_file_size : Option ℕ
  pub elements : List Element

-- The level that a tag names: "dev", "inf" or "err"
unfoldable pub level_of : List ℕ → Level
level_of tag =
    if string_eq tag (101 ∷ 114 ∷ 114 ∷ [])
    then log_level_err
    else if string_eq tag (105 ∷ 110 ∷ 102 ∷ [])
    then log_level_inf
    else if string_eq tag (100 ∷ 101 ∷ 118 ∷ [])
    then log_level_dev
    else log_level_min

-- The bit, where the attribute is "yes"
unfoldable pub yes : ℕ → List ℕ → ℕ
yes bit s = if string_eq s (121 ∷ 101 ∷ 115 ∷ []) then bit else 0

unfoldable pub flag_of : Element → Option ℕ
unfolding yes
flag_of e = elim e.console [
  | none ↦ none
  | some c ↦ elim e.file [
    | none ↦ none
    | some f ↦ elim e.sys [ none ↦ none | some s ↦ some (yes 1 c + yes 16 f + yes 256 s) ]
  ]
]

-- The loop over the elements
unfoldable pub set_levels : Logger → List Element → Logger × Option Error
unfolding level_of flag_of index
set_levels g [] = (g, none)
set_levels g (e ∷ es) =
    let level = level_of e.tag in
    let skipped = set_levels g es in
    let chosen : Logger × Option Error = elim (flag_of e) [
      | none ↦ (g, some system_error)
      | some flag ↦
          let (g', thrown) = set_level_property g level flag in
          elim thrown [ none ↦ set_levels g' es | some error ↦ (g', some error) ]
    ] in
    if index level == 0 then skipped else chosen

-- ReadXml
unfoldable pub read_xml :
    {Disk : Type 0} → Io Disk → Logger → Disk → Xml → Outcome (Logger × Disk × Option Error)
unfolding set_levels
read_xml io g d xml = elim xml.path [
  | none ↦ ok (g, d, some system_error)
  | some path ↦ elim xml.log_prefix [
    | none ↦ ok (g, d, some system_error)
    | some log_prefix ↦ elim xml.max_file_size [
      | none ↦ ok (g, d, some system_error)
      | some n ↦ init io g d path log_prefix n >>= λ r. elim r.2 [
        | some error ↦ ok r
        | none ↦ let (g', thrown) = set_levels r.0 xml.elements in ok (g', r.1, thrown)
      ]
    ]
  ]
]

level_of_not_wrn : (tag : List ℕ) → (index (level_of tag) == 3) ≡ false
unfolding level_of index
level_of_not_wrn tag = elim (Bool-cases (string_eq tag (101 ∷ 114 ∷ 114 ∷ []))) [
  | inl e ↦ rw e refl
  | inr e ↦ elim (Bool-cases (string_eq tag (105 ∷ 110 ∷ 102 ∷ []))) [
    | inl f ↦ rw (e, f) refl
    | inr f ↦ elim (Bool-cases (string_eq tag (100 ∷ 101 ∷ 118 ∷ []))) [
      | inl h ↦ rw (e, f, h) refl
      | inr h ↦ rw (e, f, h) refl
    ]
  ]
]

set_level_property_wrn :
    (g : Logger) (level : Level) (flag : ℕ)
    → (index level == 3) ≡ false
    → (set_level_property g level flag).0.property log_level_wrn ≡ g.property log_level_wrn
unfolding set_level_property assign index
set_level_property_wrn g level flag h = elim (Bool-cases g.is_init) [
  | inl e ↦ rw (e, h) refl
  | inr e ↦ rw e refl
]

-- No element of the settings changes the flags of the warnings.
pub set_levels_wrn :
    (g : Logger) (es : List Element)
    → (set_levels g es).0.property log_level_wrn ≡ g.property log_level_wrn
unfolding set_levels
set_levels_wrn g [] = refl
set_levels_wrn g (e ∷ es) = elim (Bool-cases (index (level_of e.tag) == 0)) [
  | inl z ↦ rw z (set_levels_wrn g es)
  | inr z ↦ elim (Option-cases (flag_of e)) [
    | inl n ↦ rw (z, n) refl
    | inr (flag, n) ↦
        let w = set_level_property_wrn g (level_of e.tag) flag (level_of_not_wrn e.tag) in
        let r = set_level_property g (level_of e.tag) flag in
        elim (Option-cases r.1) [
          | inl t ↦ rw (z, n, t) (set_levels_wrn r.0 es ∙ w)
          | inr (error, t) ↦ rw (z, n, t) w
        ]
  ]
]
