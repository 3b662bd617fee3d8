-- ===== src/Logger.antt =====
-- pkg/logger: the log files and what the methods of the logger write to them. zap and lumberjack write; the
-- file and line of a caller are an argument.
use cess_scheduler.Prelude.{
  Bytes, Bool, false, List, [], ◌∷◌, ◌||◌, str, bytes_eq, is_some, if◌then◌else◌,
}
use cess_scheduler.Console.Startup.{Startup, ready, ◌>>=◌}
use cess_scheduler.Console.Directories.{DirPath, Files, FileSystem, find, mkdir_all}

-- The keys of the map `log`.
pub record Logs : Type 0 where
  pub names : List Bytes

pub data Severity : Type 0 where
  info error warn : Severity

pub record Line : Type 0 where
  pub name : Bytes
  pub severity : Severity
  pub caller : Bytes
  pub text : Bytes

unfoldable pub known : Bytes → List Bytes → Bool
known name [] = false
known name (n ∷ ns) = bytes_eq n name || known name ns

abbrev line : Bytes → Severity → Bytes → Bytes → List Line
line name severity caller text =
    record { name = name; severity = severity; caller = caller; text = text } ∷ []

-- The switch over "error" and "err", and the other cases of a method.
abbrev on_error : Bytes → Bytes → Bytes → Bytes → List Line → List Line
on_error name level caller text others =
    if bytes_eq level (str "error") || bytes_eq level (str "err")
    then line name error caller text
    else others

abbrev on_info : Bytes → Bytes → Bytes → Bytes → List Line → List Line
on_info name level caller text others =
    if bytes_eq level (str "info") then line name info caller text else others

abbrev on_warn : Bytes → Bytes → Bytes → Bytes → List Line
on_warn name level caller text =
    if bytes_eq level (str "warn") then line name warn caller text else []

-- What a call of Log writes.
unfoldable pub log : Logs → Bytes → Bytes → Bytes → Bytes → List Line
unfolding known
log l name level caller text =
    if known name l.names
    then on_info name level caller text
        (on_error name level caller text (on_warn name level caller text))
    else []

unfoldable pub pnc : Logs → Bytes → Bytes → Bytes → List Line
unfolding known
pnc l level caller text =
    if known (str "panic") l.names then on_error (str "panic") level caller text [] else []

unfoldable pub common : Logs → Bytes → Bytes → Bytes → List Line
unfolding log
common l level caller text = log l (str "common") level caller text

unfoldable pub upfile : Logs → Bytes → Bytes → Bytes → List Line
unfolding log
upfile l level caller text = log l (str "upfile") level caller text

unfoldable pub miner_cache : Logs → Bytes → Bytes → Bytes → List Line
unfolding log
miner_cache l level caller text = log l (str "minerCache") level caller text

-- Without a case for "warn".
unfoldable pub gen_filler : Logs → Bytes → Bytes → Bytes → List Line
unfolding known
gen_filler l level caller text =
    if known (str "genFiller") l.names
    then on_info (str "genFiller") level caller text
        (on_error (str "genFiller") level caller text [])
    else []

unfoldable pub filler_meta : Logs → Bytes → Bytes → Bytes → List Line
unfolding log
filler_meta l level caller text = log l (str "fillerMeta") level caller text

unfoldable pub verify : Logs → Bytes → Bytes → Bytes → List Line
unfolding log
verify l level caller text = log l (str "verify") level caller text

unfoldable pub speed : Logs → Bytes → Bytes → List Line
unfolding known
speed l caller text =
    if known (str "speed") l.names then line (str "speed") info caller text else []

unfoldable pub spc : Logs → Bytes → Bytes → Bytes → List Line
unfolding log
spc l level caller text = log l (str "space") level caller text

-- getFilePath, on the components of an absolute path.
unfoldable pub get_file_path : DirPath → DirPath
get_file_path [] = []
get_file_path (c ∷ []) = []
get_file_path (c ∷ d ∷ p) = let rest = get_file_path (d ∷ p) in c ∷ rest

-- The directory of one file, made where os.Stat has an error.
unfoldable pub log_directory : FileSystem → DirPath → Files → Startup Files
log_directory fs dir files =
    if is_some (find files dir) then ready files else mkdir_all fs dir files

-- NewLogs, over the map in the order in which it is walked. No file is opened here: lumberjack opens one at the
-- first line that is written to it, and the line with its path that each file begins with is left out.
unfoldable pub new_logs : FileSystem → List (Bytes × DirPath) → Files → Startup (Logs × Files)
unfolding log_directory get_file_path
new_logs fs [] files = ready (record { names = [] }, files)
new_logs fs ((name, path) ∷ rest) files = do
  made ← log_directory fs (get_file_path path) files
  (logs, after) ← new_logs fs rest made
  ready (record { names = name ∷ logs.names }, after)
