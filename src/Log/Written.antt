-- ===== src/Log/Written.antt =====
-- What a Write comes to for the logger and the disk.
use gamnet.Prelude.{
  ◌∙◌, [], ◌∷◌, ◌<◌, ◌*◌, ◌^◌, ◌==◌, lt→ltb, arith, ok, none, ℕ, ◌||◌, ◌≡◌, refl, ◌⊎◌, inl, inr,
  true, List, Bool-cases,
}
use gamnet.Log.{
  Io, Logger, Tm, Level, has, write_file, write, write_all, init, init_property, filesize_of,
  slash_out,
}

-- The line goes to the file, or logger and disk stay as they were.
pub write-cases :
    {Disk : Type 0} (io : Io Disk) (g : Logger) (d : Disk) (level : Level) (now : Tm) (s : List ℕ)
    → (((write io g d level now s).0 ≡ (write_file io g d now s).0)
        × ((write io g d level now s).1 ≡ (write_file io g d now s).1))
      ⊎ (((write io g d level now s).0 ≡ g) × ((write io g d level now s).1 ≡ d))
unfolding write
write-cases io g d level now s =
    let flag = g.property level in
    elim (Bool-cases (has flag 1 || has flag 16 || has flag 256)) [
      | inr e ↦ inr (rw e refl, rw e refl)
      | inl e ↦ elim (Bool-cases g.is_init) [
        | inr i ↦ inr (rw (e, i) refl, rw (e, i) refl)
        | inl i ↦ elim (Bool-cases (has flag 16)) [
          | inl f ↦ inl (rw (e, i, f) refl, rw (e, i, f) refl)
          | inr f ↦ inr (rw (e, i, f) refl, rw (e, i, f) refl)
        ]
      ]
    ]

-- A Write of a level with the file flag
pub write_flagged :
    {Disk : Type 0} (io : Io Disk) (g : Logger) (d : Disk) (level : Level) (now : Tm) (s : List ℕ)
    → has (g.property level) 16 ≡ true
    → g.is_init ≡ true
    → ((write io g d level now s).0 ≡ (write_file io g d now s).0)
      × ((write io g d level now s).1 ≡ (write_file io g d now s).1)
unfolding write
write_flagged io g d level now s f i = elim (Bool-cases (has (g.property level) 1)) [
  | inl e ↦ (rw (e, f, i) refl, rw (e, f, i) refl)
  | inr e ↦ (rw (e, f, i) refl, rw (e, f, i) refl)
]

-- A Write leaves the levels.
write_keeps :
    {Disk : Type 0} (io : Io Disk) (g : Logger) (d : Disk) (level : Level) (now : Tm) (s : List ℕ)
    → ((write io g d level now s).0.property ≡ g.property)
      × ((write io g d level now s).0.is_init ≡ g.is_init)
unfolding write_file
write_keeps io g d level now s = elim (write-cases io g d level now s) [
  | inl (a, b) ↦ (rw (a, write_file) refl, rw (a, write_file) refl)
  | inr (a, b) ↦ (rw a refl, rw a refl)
]

pub write_all_keeps :
    {Disk : Type 0} (io : Io Disk) (g : Logger) (d : Disk) (ls : List (Level × Tm × List ℕ))
    → ((write_all io g d ls).0.property ≡ g.property)
      × ((write_all io g d ls).0.is_init ≡ g.is_init)
unfolding write_all
write_all_keeps io g d [] = (refl, refl)
write_all_keeps io g d ((level, now, s) ∷ ls) =
    let w = write io g d level now s in
    let (q, up) = write_keeps io g d level now s in
    let (qs, more) = write_all_keeps io w.0 w.1 ls in (qs ∙ q, more ∙ up)

filesize_of_lem : (n : ℕ) → n < 2048 → (size : ℕ) × (filesize_of n ≡ ok size)
unfolding filesize_of
filesize_of_lem n h = elim (Bool-cases (n == 0)) [
  | inl e ↦ (1024 * 1204 * 10, rw e refl)
  | inr e ↦ (n * 1024 * 1024, rw (e, lt→ltb (n * 1024 * 1024) (2 ^ 31) (omega arith)) refl)
]

-- Init succeeds for a directory that exists.
pub init_lem :
    {Disk : Type 0} (io : Io Disk) (g : Logger) (d : Disk) (path log_prefix : List ℕ) (n : ℕ)
    → io.exists d (slash_out path) ≡ true
    → n < 2048
    → (g' : Logger) × (init io g d path log_prefix n ≡ ok (g', d, none))
      × (g'.file.log_path ≡ slash_out path)
      × (g'.file.stream ≡ g.file.stream)
      × (g'.file.today ≡ g.file.today)
      × (g'.is_init ≡ true)
unfolding init
init_lem io g d path log_prefix n there small =
    let (size, e) = filesize_of_lem n small in
    (
      record {
        property = init_property g.property;
        is_init = true;
        file = record g.file {
          log_path = slash_out path;
          log_prefix = log_prefix;
          filesize = size;
        };
      },
      rw (e, there) refl,
      refl,
      refl,
      refl,
      refl,
    )
