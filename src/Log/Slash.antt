-- ===== src/Log/Slash.antt =====
-- What becomes of a path that ends in a slash.
use gamnet.Prelude.{
  ◌<◌, ℕ, ◌≡◌, ◌≢◌, refl, ap, ◌∙◌, arith, true, false, List, [], ◌∷◌, ◌++◌, none, ok, append_assoc,
  Bool-cases, inl, inr,
}
use gamnet.Log.{
  Io, File, Logger, Tm, Level, c_str, slash_out, name_of, reopen, new_day, too_large, open_file,
  date, date_time, init, write_file, put_line, write, write_all, same_day, line,
}
use gamnet.Log.Written.{write-cases, init_lem}

-- A text without a zero
abbrev pub IsText : List ℕ → Type 0
IsText [] = Unit {0}
IsText (c ∷ s) = (c ≢ 0) × IsText s

c_str_cut : (s t : List ℕ) → IsText s → c_str (s ++ (0 ∷ t)) ≡ s
unfolding c_str
c_str_cut [] t h = refl
c_str_cut (c ∷ s) t (n, h) = ground (arith, c_str_cut s t h)

slash_out_slash : (p : List ℕ) → slash_out (p ++ (47 ∷ [])) ≡ p ++ (0 ∷ [])
unfolding slash_out
slash_out_slash [] = refl
slash_out_slash (c ∷ []) = refl
slash_out_slash (c ∷ d ∷ p) = ap (◌∷◌ c) (slash_out_slash (d ∷ p))

module _ {Disk : Type 0} (io : Io Disk) (p : List ℕ) (text : IsText p)
    (refused : (d : Disk) → io.open_append d p ≡ (d, false)) where
  -- The path of a file has the zero behind `p`, and its stream is not open.
  record Cut (f : File) : Type 0 where
    path : f.log_path ≡ p ++ (0 ∷ [])
    shut : f.stream ≡ none

  name_cut : (f : File) (stamp : List ℕ) → Cut f → c_str (name_of f stamp) ≡ p
  unfolding name_of
  name_cut f stamp c =
      let rest = 47 ∷ (f.log_prefix ++ (95 ∷ (stamp ++ (46 ∷ 116 ∷ 120 ∷ 116 ∷ [])))) in
      rw c.path (ap c_str (append_assoc p (0 ∷ []) rest) ∙ c_str_cut p rest text)

  abbrev Nothing : Disk → File × Disk → Type 0
  Nothing d r = Cut r.0 × (r.1 ≡ d)

  reopen-Nothing :
      (f : File) (d : Disk) (now : Tm) (stamp : List ℕ)
      → Cut f
      → Nothing d (reopen io f d now stamp)
  unfolding reopen
  reopen-Nothing f d now stamp c =
      let e = name_cut f stamp c in
      (record { path = c.path; shut = rw (e, refused d) refl }, rw (e, refused d) refl)

  new_day-Nothing : (f : File) (d : Disk) (now : Tm) → Cut f → Nothing d (new_day io f d now)
  unfolding new_day
  new_day-Nothing f d now c = elim (Bool-cases (same_day f.today now)) [
    | inl e ↦ rw e (c, refl)
    | inr e ↦ rw e (reopen-Nothing f d now (date io now) c)
  ]

  open_file-Nothing : (f : File) (d : Disk) (now : Tm) → Cut f → Nothing d (open_file io f d now)
  unfolding open_file
  open_file-Nothing f d now c =
      let (c1, e1) = new_day-Nothing f d now c in
      let r = new_day io f d now in
      elim (Bool-cases (too_large io r.0 r.1)) [
        | inl e ↦
            let (c2, e2) = reopen-Nothing r.0 r.1 now (date_time io now) c1 in rw e (c2, e2 ∙ e1)
        | inr e ↦ rw e (c1, e1)
      ]

  write_file-Nothing :
      (g : Logger) (d : Disk) (now : Tm) (s : List ℕ)
      → Cut g.file
      → Cut (write_file io g d now s).0.file × ((write_file io g d now s).1 ≡ d)
  unfolding write_file put_line
  write_file-Nothing g d now s c =
      let r = open_file io g.file d now in
      let (c1, e1) = open_file-Nothing g.file d now c in
      (
        record { path = c1.path; shut = ap (λ o. (put_line io o r.1 (line io now s)).0) c1.shut },
        ap (λ o. (put_line io o r.1 (line io now s)).1) c1.shut ∙ e1,
      )

  write-Nothing :
      (g : Logger) (d : Disk) (level : Level) (now : Tm) (s : List ℕ)
      → Cut g.file
      → Cut (write io g d level now s).0.file × ((write io g d level now s).1 ≡ d)
  write-Nothing g d level now s c =
      let (c1, e1) = write_file-Nothing g d now s c in
      elim (write-cases io g d level now s) [
        | inl (a, b) ↦ rw (a, b) (c1, e1)
        | inr (a, b) ↦ rw (a, b) (c, refl)
      ]

  write_all-Nothing :
      (g : Logger) (d : Disk) (ls : List (Level × Tm × List ℕ))
      → Cut g.file
      → (write_all io g d ls).1 ≡ d
  unfolding write_all
  write_all-Nothing g d [] c = refl
  write_all-Nothing g d ((level, now, s) ∷ ls) c =
      let (c1, e1) = write-Nothing g d level now s c in
      let w = write io g d level now s in write_all-Nothing w.0 w.1 ls c1 ∙ e1

-- `Init` of a logger that has no file open, with a path `p` without a zero and a slash behind it,
-- succeeds where the path with a zero in the place of the slash exists and the limit is below 2048. But
-- where `p` cannot be opened as a file, as a directory cannot, no Writes after it change the disk.
pub init_slash :
    {Disk : Type 0} (io : Io Disk) (p log_prefix : List ℕ) (max_file_size : ℕ) (d : Disk)
    (g : Logger) (ls : List (Level × Tm × List ℕ))
    → IsText p
    → ((d : Disk) → io.open_append d p ≡ (d, false))
    → io.exists d (p ++ (0 ∷ [])) ≡ true
    → max_file_size < 2048
    → g.file.stream ≡ none
    → (g' : Logger) × (init io g d (p ++ (47 ∷ [])) log_prefix max_file_size ≡ ok (g', d, none))
      × ((write_all io g' d ls).1 ≡ d)
init_slash io p log_prefix max_file_size d g ls text refused there small shut =
    let (g', e, path, stream, today, ready) =
      init_lem io g d (p ++ (47 ∷ [])) log_prefix max_file_size (rw (slash_out_slash p) there)
        small in
    (
      g',
      e,
      write_all-Nothing io p text refused g' d ls
          (record { path = path ∙ slash_out_slash p; shut = stream ∙ shut }),
    )
