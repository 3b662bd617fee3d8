-- ===== src/Examples/RunTests.antt =====
-- The start of the service (cmd/console/run.go), its directories and its log files.
use cess_scheduler.Prelude.{
  ◌≡◌, refl, Bytes, Bool, true, false, none, some, [], ◌∷◌, ◌++◌, str, replicate, All,
}
use cess_scheduler.Chain.Types.{SchedulerInfo}
use cess_scheduler.Chain.Query.{
  found, missing, get_sync_status, get_account_info, get_all_scheduler_info,
}
use cess_scheduler.Chain.Submit.{register, transact}
use cess_scheduler.Config.{parse}
use cess_scheduler.Utils.Address.{decode_public_key_of_cess_account}
use cess_scheduler.Cache.{empty, opened}
use cess_scheduler.Logger.{info, gen_filler, spc, known, log}
use cess_scheduler.Proof.Key.{unset}
use cess_scheduler.Console.Startup.{
  Startup, ready, exits, panics, low_balance, check_wallet, syncing,
}
use cess_scheduler.Console.Directories.{
  DirPath, Files, FileSystem, under, find, build_dir, join, log_dir, cache_dir, filler_dir,
  file_dir, tag_dir,
}
use cess_scheduler.Console.Directories.Layout.{Cleared, build_dir_layout}
use cess_scheduler.Console.Run.{Boot, Node, build_config_file, build_chain, log_files, run_cmd}
use cess_scheduler.Examples.ChainTests.{healthy, up, text, accepting}
use cess_scheduler.Examples.ConfigTests.{system, entries, stash}

abbrev fs : FileSystem
fs = record { can_make = λ p. true; stuck = λ p. false }

abbrev base_path : DirPath
base_path = stash ∷ str "scheduler" ∷ []

abbrev below : Bytes → Bytes → DirPath
below d name = str "data" ∷ stash ∷ str "scheduler" ∷ d ∷ name ∷ []

-- A filler of an earlier run, and a received file.
abbrev disk : Files
disk =
    record { path = below filler_dir (str "f"); directory = false }
    ∷ record { path = below file_dir (str "u"); directory = false }
    ∷ []

abbrev files_of : Startup Files → Files
files_of (ready d) = d
files_of (exits r) = []
files_of panics = []
files_of syncing = []

unfoldable laid_out : Files
unfolding build_dir find join under
laid_out = files_of (build_dir fs (str "data" ∷ base_path) disk)

built : build_dir fs (str "data" ∷ base_path) disk ≡ ready laid_out
unfolding laid_out build_dir find join under
built = refl

build_dir_layout_example :
    All
      (λ d. find laid_out (str "data" ∷ base_path ++ d ∷ []) ≡ some true)
      (log_dir ∷ cache_dir ∷ filler_dir ∷ file_dir ∷ tag_dir ∷ [])
    × Cleared fs laid_out (str "data" ∷ base_path ++ filler_dir ∷ [])
    × Cleared fs laid_out (str "data" ∷ base_path ++ tag_dir ∷ [])
    × ((q : DirPath) (x : Bool)
        → under (str "data" ∷ base_path ++ filler_dir ∷ []) q ≡ false
        → under (str "data" ∷ base_path ++ tag_dir ∷ []) q ≡ false
        → find disk q ≡ some x
        → find laid_out q ≡ some x)
build_dir_layout_example = build_dir_layout fs (str "data") base_path disk laid_out built

swept :
    (find laid_out (below filler_dir (str "f")) ≡ none)
    × (find laid_out (below file_dir (str "u")) ≡ some false)
unfolding laid_out build_dir find join under
swept = (refl, refl)

abbrev own_key : Bytes
own_key = replicate 32 7

abbrev me : SchedulerInfo
me = record {
  ip = record { index = 0; value = []; port = 15000 };
  stash_user = [];
  controller_user = own_key;
}

-- The node syncs at first, and lists the account.
abbrev boot : Boot
boot = record {
  connection = record {
    api = true;
    metadata = true;
    genesis_hash = true;
    runtime_version = true;
    key_events = true;
    keyring = λ s. some own_key;
  };
  account_link = healthy;
  bad_key = none;
  account_enc = none;
  account_key = none;
  balance = found 2000000000000;
  syncs = (healthy, none, true) ∷ (healthy, none, false) ∷ [];
  schedulers_link = healthy;
  schedulers_key = none;
  schedulers = found (me ∷ []);
  hex = text;
  parsed = λ s. true;
  register_link = healthy;
  network = accepting;
  components = λ d. str "data" ∷ [];
  open_file = λ o. opened empty;
  recover_file = none;
  mkdir_cache = true;
}

abbrev node : Node
node = record {
  confile = entries 15000;
  chain_client = (up, own_key);
  base = str "data" ∷ base_path;
  cache_of = empty;
  key = unset;
  logs_of = record { names = log_files };
  files = laid_out;
}

abbrev poor : Boot
poor = record boot { balance = found 1999999999999 }

too_poor : run_cmd (system 15000) fs poor [] [] disk ≡ exits low_balance
unfolding run_cmd build_config_file build_chain decode_public_key_of_cess_account parse
    get_account_info
too_poor = refl

-- Without schedulers the service registers; a wallet without an account is refused.
abbrev first_start : Boot
first_start = record boot { schedulers = missing; network = record accepting { account = missing } }

no_wallet : run_cmd (system 15000) fs first_start [] [] disk ≡ exits check_wallet
unfolding run_cmd build_config_file build_chain decode_public_key_of_cess_account parse
    get_sync_status get_account_info get_all_scheduler_info register transact
no_wallet = refl

-- A warning of the filler task is not written.
dropped : gen_filler (record { names = log_files }) (str "warn") [] [] ≡ []
unfolding gen_filler known
dropped = refl

written :
    spc (record { names = log_files }) (str "info") [] (str "x")
    ≡ record { name = str "space"; severity = info; caller = []; text = str "x" } ∷ []
unfolding spc log known
written = refl
