-- ===== src/Log/Days.antt =====
-- The file of a line, by its day and by its size.
use gamnet.Prelude.{ℕ, ◌≡◌, ◌⊎◌, true, false, List, [], ◌∷◌, none, some}
use gamnet.Log.{
  Io, File, Tm, Level, c_str, name_of, too_large, date, date_time, same_day, zero_tm, line,
}

-- The file is named for its day, or for a time of the day.
pub data Named {Disk : Type 0} (io : Io Disk) (f : File) : Type 0 where
  by_date : f.filename ≡ name_of f (date io f.today) → Named io f
  by_time : f.filename ≡ name_of f (date_time io f.today) → Named io f

-- The stream is open on the file with the name, or not open, where the file was refused.
abbrev pub OnFile : File → Type 0
OnFile f = (f.stream ≡ none) ⊎ (f.stream ≡ some (c_str f.filename))

-- Either no file has been opened, or the name is that for the day that the log has noted.
pub data IsDated {Disk : Type 0} (io : Io Disk) (f : File) : Type 0 where
  unopened : f.today ≡ zero_tm → IsDated io f
  opened : Named io f → OnFile f → IsDated io f

-- What a File::open comes to at a time: the name is for a time of the same day, and the size of the
-- file, as an `int`, does not exceed the limit, or it is the file of this very second.
pub record Lands {Disk : Type 0} (io : Io Disk) (now : Tm) (f : File) (d : Disk) : Type 0 where
  pub named : Named io f
  pub same : same_day f.today now ≡ true
  pub on_file : OnFile f
  pub room : (too_large io f d ≡ false) ⊎ (f.filename ≡ name_of f (date_time io now))

-- From one disk to another by opening files, and nothing else
pub data OpensOnly {Disk : Type 0} (io : Io Disk) (d : Disk) : Disk → Type 0 where
  no_more : OpensOnly io d d
  one_more :
      (m : Disk) (name : List ℕ) → OpensOnly io d m → OpensOnly io d (io.open_append m name).0

-- What a Write makes of a disk, with the file of the logger behind it: files are opened and nothing
-- is written, up to one for the time, and then the line is appended to that one, or the disk stays as
-- it is, where the stream takes nothing.
pub record Filed {Disk : Type 0} (io : Io Disk) (now : Tm) (s : List ℕ) (before : Disk) (f : File)
    (after : Disk) : Type 0 where
  pub disk : Disk
  pub opens : OpensOnly io before disk
  pub lands : Lands io now f disk
  pub put :
      ((f.stream ≡ none) × (after ≡ disk))
      ⊎ (after ≡ (io.append disk (c_str f.filename) (line io now s)).0)

-- No line is of the first day of 1900.
abbrev pub AllLater : List (Level × Tm × List ℕ) → Type 0
AllLater [] = Unit {0}
AllLater ((level, now, s) ∷ ls) = (same_day zero_tm now ≡ false) × AllLater ls

module _ {Disk : Type 0} (io : Io Disk) where
  abbrev Opens : Tm → File → Type 0
  Opens now f = Named io f × OnFile f × (same_day f.today now ≡ true)
