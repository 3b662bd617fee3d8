-- ===== src/Config.antt =====
-- pkg/confile/confile.go: Parse, which reads the configuration file and checks its entries.
use cess_scheduler.Prelude.{
  ℕ, Bytes, Bool, true, false, Option, none, some, List, [], ◌∷◌, ◌||◌, length, ◌==◌, ltb,
  if◌then◌else◌, str,
}
use cess_scheduler.Chain.Types.{Return, returned, panicked}
use cess_scheduler.Utils.Address.{Crypto, ok, err, decode_public_key_of_cess_account}
pub mod Accepted

pub record Confile : Type 0 where
  pub rpc_addr : Bytes
  pub service_addr : Bytes
  pub service_port : ℕ
  pub sgx_port : ℕ
  pub data_dir : Bytes
  pub ctrl_prk : Bytes
  pub stash_acc : Bytes

-- What os.Stat finds at a path; `nothing` is an error.
pub data Found : Type 0 where
  nothing directory plain_file : Found

-- The system and the libraries: what stands at a path; what viper reads and unmarshals from a file, if it
-- does; whether a path has an extension; whether a secret gives a keyring pair; and whether MkdirAll succeeds.
pub record System : Type 0 where
  pub crypto : Crypto
  pub stat : Bytes → Found
  pub read : Bytes → Option Confile
  pub has_ext : Bytes → Bool
  pub is_secret : Bytes → Bool
  pub mkdir_all : Bytes → Bool

pub data ParseError : Type 0 where
  not_found is_directory unreadable secret_error stash_error empty_entry reserved_port : ParseError
  port_too_large illegal_sgx_port mkdir_error data_dir_no_directory : ParseError

abbrev pub default_configuration_file : Bytes
default_configuration_file = str "./conf.toml"

abbrev is_empty : Bytes → Bool
is_empty s = length s == 0

-- The directory is made where there is none.
unfoldable pub check_data_dir : System → Bytes → Found → Option ParseError
check_data_dir sys dir nothing = if sys.mkdir_all dir then none else some mkdir_error
check_data_dir sys dir directory = none
check_data_dir sys dir plain_file = some data_dir_no_directory

-- From the ports on.
unfoldable pub check_ports : System → Confile → Option ParseError
unfolding check_data_dir
check_ports sys c =
    if ltb c.service_port 1024
    then some reserved_port
    else (if ltb 65535 c.service_port
        then some port_too_large
        else (if (c.sgx_port == 0) || ltb 65535 c.sgx_port
            then some illegal_sgx_port
            else check_data_dir sys c.data_dir (sys.stat c.data_dir)))

-- The checks of the entries.
unfoldable pub check_entries : System → Confile → Option ParseError
unfolding check_ports
check_entries sys c =
    if sys.is_secret c.ctrl_prk
    then elim (decode_public_key_of_cess_account sys.crypto c.stash_acc) [
      | err e ↦ some stash_error
      | ok puk ↦
          if is_empty c.data_dir || (is_empty c.rpc_addr || is_empty c.service_addr)
          then some empty_entry
          else check_ports sys c
    ]
    else some secret_error

unfoldable pub check_read : System → Option Confile → Option ParseError × Option Confile
unfolding check_entries
check_read sys none = (some unreadable, none)
check_read sys (some c) = (check_entries sys c, some c)

-- path.Ext(confilePath)[1:] panics where there is no extension.
unfoldable pub check_found : System → Bytes → Found → Return (Option ParseError × Option Confile)
unfolding check_read
check_found sys path nothing = returned (some not_found, none)
check_found sys path directory = returned (some is_directory, none)
check_found sys path plain_file =
    if sys.has_ext path then returned (check_read sys (sys.read path)) else panicked

abbrev pub path_of : Bytes → Bytes
path_of fpath = if is_empty fpath then default_configuration_file else fpath

-- The error, and the entries that were read.
unfoldable pub parse : System → Bytes → Return (Option ParseError × Option Confile)
unfolding check_found
parse sys fpath = check_found sys (path_of fpath) (sys.stat (path_of fpath))
