-- ===== src/Log.antt =====
-- Gamnet/Log/Logger.{h,cpp}, File.{h,cpp} and Log.cpp: the log, its levels and its files. The disk
-- and its calls, and the conversions of snprintf, are parameters. An `int` that is not negative is a
-- number below 2 ^ 31. Write holds the mutex of the logger while it puts a line out.
pub mod Days
pub mod Slash
pub mod Silent
pub mod Written
pub mod Xml
mod Tests
use gamnet.Prelude.{
  ℕ, ◌+◌, ◌*◌, ◌/◌, ◌%◌, ◌^◌, ◌==◌, ltb, not, ◌&&◌, ◌||◌, if◌then◌else◌, Bool, true, false, List,
  [], ◌∷◌, ◌++◌, Option, none, some, Outcome, ok, fault, take, u32, Error, not_initialized_error,
  create_directory_fail_error, system_error, ◌>>=◌,
}

-- struct tm
pub record Tm : Type 0 where
  pub tm_year : ℕ
  pub tm_mon : ℕ
  pub tm_mday : ℕ
  pub tm_hour : ℕ
  pub tm_min : ℕ
  pub tm_sec : ℕ
  pub tm_yday : ℕ

-- The conversion `%0wd` of snprintf, opening and closing a stream to append to a file, which tells
-- whether it is open, writing to it, which tells whether it went well, and file_size, exists and create_directory of
-- boost::filesystem, with `none` for a filesystem_error
pub record Io (Disk : Type 0) : Type 0 where
  pub print : ℕ → ℕ → List ℕ
  pub open_append : Disk → List ℕ → Disk × Bool
  pub append : Disk → List ℕ → List ℕ → Disk × Bool
  pub size_of : Disk → List ℕ → Option ℕ
  pub exists : Disk → List ℕ → Bool
  pub create_directory : Disk → List ℕ → Disk × Option Bool

-- File, with the name of the file that its stream writes to: `none` where it is not open, or has failed
-- and takes nothing more until it is opened again
pub record File : Type 0 where
  pub stream : Option (List ℕ)
  pub log_prefix : List ℕ
  pub filename : List ℕ
  pub log_path : List ℕ
  pub today : Tm
  pub filesize : ℕ

pub data Level : Type 0 where
  log_level_min log_level_dev log_level_inf log_level_wrn log_level_err : Level

pub record Logger : Type 0 where
  pub property : Level → ℕ
  pub is_init : Bool
  pub file : File

-- The characters of a std::string that its c_str shows
unfoldable pub c_str : List ℕ → List ℕ
c_str [] = []
c_str (c ∷ s) = let rest = c_str s in if c == 0 then [] else c ∷ rest

abbrev pub zero_tm : Tm
zero_tm = record {
  tm_year = 0;
  tm_mon = 0;
  tm_mday = 0;
  tm_hour = 0;
  tm_min = 0;
  tm_sec = 0;
  tm_yday = 0;
}

-- The logger of GetInstance, which is static: its levels are zero.
abbrev pub new_logger : Logger
new_logger = record {
  property = λ l. 0;
  is_init = false;
  file = record {
    stream = none;
    log_prefix = [];
    filename = [];
    log_path = [];
    today = zero_tm;
    filesize = 0;
  };
}

unfoldable pub same_day : Tm → Tm → Bool
same_day a b = (a.tm_year == b.tm_year) && (a.tm_yday == b.tm_yday)

-- A flag of a level: `flag & bit`, for a bit 1, 16 or 256
unfoldable pub has : ℕ → ℕ → Bool
has flag bit = (flag / bit) % 2 == 1

index : Level → ℕ
index log_level_min = 0
index log_level_dev = 1
index log_level_inf = 2
index log_level_wrn = 3
index log_level_err = 4

-- Property_[level] = flag
unfoldable pub assign : (Level → ℕ) → Level → ℕ → Level → ℕ
unfolding index
assign property level flag l = if index level == index l then flag else property l

-- Logger::SetLevelProperty
unfoldable pub set_level_property : Logger → Level → ℕ → Logger × Option Error
unfolding assign
set_level_property g level flag =
    if g.is_init
    then (record g { property = assign g.property level flag }, none)
    else (g, some not_initialized_error)

-- The levels as Init sets them
unfoldable pub init_property : (Level → ℕ) → Level → ℕ
init_property property log_level_min = property log_level_min
init_property property log_level_dev = 17
init_property property log_level_inf = 17
init_property property log_level_wrn = 17
init_property property log_level_err = 273

-- `filesize_` from `max_file_size`: an overflow of `int` is undefined.
unfoldable pub filesize_of : ℕ → Outcome ℕ
filesize_of max_file_size =
    if max_file_size == 0
    then ok (1024 * 1204 * 10)
    else if ltb (max_file_size * 1024 * 1024) (2 ^ 31)
    then ok (max_file_size * 1024 * 1024)
    else fault

-- A '/' at the end of the path becomes a '\0'.
unfoldable pub slash_out : List ℕ → List ℕ
slash_out [] = []
slash_out (c ∷ []) = if c == 47 then 0 ∷ [] else c ∷ []
slash_out (c ∷ d ∷ path) = c ∷ slash_out (d ∷ path)

-- A line on std::cout or std::cerr
pub data Event : Type 0 where
  out err : List ℕ → Event

unfoldable pub name_of : File → List ℕ → List ℕ
name_of f stamp =
    f.log_path ++ (47 ∷ (f.log_prefix ++ (95 ∷ (stamp ++ (46 ∷ 116 ∷ 120 ∷ 116 ∷ [])))))

module _ {Disk : Type 0} (io : Io Disk) where
  -- The date and the date with the time as File::open prints them
  unfoldable pub date : Tm → List ℕ
  date now =
      take 9
        (io.print 4 (now.tm_year + 1900) ++ io.print 2 (now.tm_mon + 1) ++ io.print 2 now.tm_mday)

  unfoldable pub date_time : Tm → List ℕ
  date_time now = take 19 (
      io.print 4 (now.tm_year + 1900)
      ++ io.print 2 (now.tm_mon + 1)
      ++ io.print 2 now.tm_mday
      ++ (95 ∷ [])
      ++ io.print 2 now.tm_hour
      ++ io.print 2 now.tm_min
      ++ io.print 2 now.tm_sec)

  -- The stream is closed and opened on the file for a date.
  unfoldable pub reopen : File → Disk → Tm → List ℕ → File × Disk
  reopen f d now stamp =
      let name = name_of f stamp in
      let (d', good) = io.open_append d (c_str name) in
      (
        record f {
          stream = if good then some (c_str name) else none;
          filename = name;
          today = now;
        },
        d',
      )

  -- `filesize_ < filesize`, where the size of the file is converted to `int`
  unfoldable pub too_large : File → Disk → Bool
  too_large f d = elim (io.size_of d (c_str f.filename)) [
    | none ↦ ltb f.filesize 2147483647
    | some n ↦ ltb (u32 n) (2 ^ 31) && ltb f.filesize (u32 n)
  ]

  unfoldable pub new_day : File → Disk → Tm → File × Disk
  new_day f d now = if same_day f.today now then (f, d) else reopen f d now (date now)

  -- File::open
  unfoldable pub open_file : File → Disk → Tm → File × Disk
  open_file f d now =
      let (f', d') = new_day f d now in
      if too_large f' d' then reopen f' d' now (date_time now) else (f', d')

  -- Logger::Init
  unfoldable pub init : Logger → Disk → List ℕ → List ℕ → ℕ → Outcome (Logger × Disk × Option Error)
  init g d path log_prefix max_file_size = filesize_of max_file_size >>= λ size.
      let g' = record g {
        property = init_property g.property;
        file = record g.file {
          log_path = slash_out path;
          log_prefix = log_prefix;
          filesize = size;
        };
      } in
      let made = io.create_directory d (slash_out path) in
      let fresh : Logger × Disk × Option Error = elim made.1 [
        | none ↦ (g', made.0, some system_error)
        | some done ↦
            if done
            then (record g' { is_init = true }, made.0, none)
            else (g', made.0, some create_directory_fail_error)
      ] in
      ok (if io.exists d (slash_out path) then (record g' { is_init = true }, d, none) else fresh)

  -- The line of a text: the time, the text and the end of the line
  unfoldable pub line : Tm → List ℕ → List ℕ
  line now text =
      take 21 (
        (91 ∷ io.print 4 (now.tm_year + 1900))
        ++ (45 ∷ io.print 2 (now.tm_mon + 1))
        ++ (45 ∷ io.print 2 now.tm_mday)
        ++ (32 ∷ io.print 2 now.tm_hour)
        ++ (58 ∷ io.print 2 now.tm_min)
        ++ (58 ∷ io.print 2 now.tm_sec)
        ++ (93 ∷ []))
      ++ (32 ∷ c_str text)
      ++ (10 ∷ [])

  -- The line on a stream, which takes no more behind a failure
  unfoldable pub put_line : Option (List ℕ) → Disk → List ℕ → Option (List ℕ) × Disk
  put_line none d s = (none, d)
  put_line (some name) d s =
      let (d', good) = io.append d name s in (if good then some name else none, d')

  -- The line in the file
  unfoldable pub write_file : Logger → Disk → Tm → List ℕ → Logger × Disk
  write_file g d now text =
      let (f, d') = open_file g.file d now in
      let (stream', d'') = put_line f.stream d' (line now text) in
      (record g { file = record f { stream = stream' } }, d'')

  -- The line on the console
  unfoldable pub console : Level → List ℕ → List Event
  console log_level_err s = err s ∷ []
  console log_level_min s = out s ∷ []
  console log_level_dev s = out s ∷ []
  console log_level_inf s = out s ∷ []
  console log_level_wrn s = out s ∷ []

  -- Logger::Write, of a text that Format has made
  unfoldable pub write :
      Logger → Disk → Level → Tm → List ℕ → Logger × Disk × List Event × Option Error
  write g d level now text =
      let flag = g.property level in
      let evs = if has flag 1 then console level (line now text) else [] in
      let filed = if has flag 16 then write_file g d now text else (g, d) in
      if has flag 1 || has flag 16 || has flag 256
      then (if g.is_init
          then (filed.0, filed.1, evs, none)
          else (g, d, [], some not_initialized_error))
      else (g, d, [], none)

  -- One Write after the other, and the logger and the disk after them
  unfoldable pub write_all : Logger → Disk → List (Level × Tm × List ℕ) → Logger × Disk
  write_all g d [] = (g, d)
  write_all g d ((level, now, text) ∷ more) =
      let w = write g d level now text in write_all w.0 w.1 more
