-- ===== src/Console/Run.antt =====
-- cmd/console/run.go: runCmd, which starts the service. What the node, the libraries and the system answer on
-- the way is a `Boot`. What is printed is left out, and node.Run, which the command ends in.
use cess_scheduler.Prelude.{
  ℕ, ◌==◌, ◌+◌, ◌*◌, ◌%◌, ◌^◌, Bytes, Bool, true, false, Option, none, some, List, [], ◌∷◌, ◌++◌,
  map, str, length, ltb, bytes_eq, is_some, if◌then◌else◌,
}
pub mod Admission
pub mod Laid
pub mod Ready
use cess_scheduler.Chain.Types.{
  Error, rpc, rpc_empty_value, Return, returned, panicked, SchedulerInfo,
}
use cess_scheduler.Chain.Client.{
  Client, Link, Connection, OwnClient, new_chain_client, own_account_id,
}
use cess_scheduler.Chain.Query.{
  Storage, Answer, get_account_info, get_sync_status, get_all_scheduler_info,
}
use cess_scheduler.Chain.Submit as Submit
use cess_scheduler.Chain.Submit.{Network, Result}
use cess_scheduler.Config.{System, Confile, ParseError, parse}
use cess_scheduler.Utils.Address as Address
use cess_scheduler.Utils.Address.{
  Crypto, ok, err, decode_public_key_of_cess_account, encode_public_key_as_cess_account,
}
use cess_scheduler.Cache.{Cache, Options, Opened, new_cache}
use cess_scheduler.Logger.{Logs, new_logs}
use cess_scheduler.Proof.Key.{PublicKey, unset, set_key}
use cess_scheduler.Console.Startup.{
  Startup, ready, exits, panics, syncing, config, chain, account, pending, connect, low_balance,
  check_wallet, cache, ◌>>=◌,
}
use cess_scheduler.Console.Directories.{
  DirPath, Files, FileSystem, find, remove_all, join, base_dir, log_dir, cache_dir, build_dir,
}

-- The answers, in the order of the calls. `syncs` are those to GetSyncStatus; `bad_key` says that
-- types.NewAccountID refuses the public key; `components` are those of a cleaned path.
pub record Boot : Type 0 where
  pub connection : Connection
  pub account_link : Link
  pub bad_key : Option Error
  pub account_enc : Option Error
  pub account_key : Option Error
  pub balance : Storage ℕ
  pub syncs : List (Link × Option Error × Bool)
  pub schedulers_link : Link
  pub schedulers_key : Option Error
  pub schedulers : Storage (List SchedulerInfo)
  pub hex : Bytes → Bytes
  pub parsed : Bytes → Bool
  pub register_link : Link
  pub network : Network
  pub components : Bytes → DirPath
  pub open_file : Options → Opened
  pub recover_file : Option Cache
  pub mkdir_cache : Bool

-- What Parse returned; it has read the entries where it has no error.
unfoldable pub parsed_entries : Return (Option ParseError × Option Confile) → Startup Confile
parsed_entries panicked = panics
parsed_entries (returned (some e, c)) = exits (config e)
parsed_entries (returned (none, some c)) = ready c
parsed_entries (returned (none, none)) = panics

-- The flags `config` and `c`.
abbrev pub config_path : Bytes → Bytes → Bytes
config_path config1 config2 = if length config1 == 0 then config2 else config1

unfoldable pub build_config_file : System → Bytes → Bytes → Startup Confile
unfolding parse parsed_entries
build_config_file sys config1 config2 = parsed_entries (parse sys (config_path config1 config2))

abbrev pub minimum_balance : ℕ
minimum_balance = 2 * 1000000000000

-- A query, whose error is returned.
unfoldable pub answered : {A : Type 0} → Client × Answer A → Startup (Client × A)
answered (c, panicked) = panics
answered (c, returned (a, some e)) = exits (chain e)
answered (c, returned (a, none)) = ready (c, a)

-- The loop over GetSyncStatus.
unfoldable pub sync_block : Client → List (Link × Option Error × Bool) → Startup Client
unfolding answered get_sync_status
sync_block c [] = syncing
sync_block c ((l, e, s) ∷ rest) = answered (get_sync_status c l e s) >>= λ r.
    (let go = sync_block r.0 rest in if r.1 then go else ready r.0)

-- err.Error() != chain.ERR_RPC_EMPTY_VALUE.Error()
unfoldable pub is_empty_value : Error → Bool
is_empty_value rpc_empty_value = true
is_empty_value (rpc text) = bytes_eq text (str "empty")
is_empty_value _ = false

-- GetAllSchedulerInfo, of which a missing list is no error.
unfoldable pub scheduler_list :
    Client × Answer (List SchedulerInfo) → Startup (Client × List SchedulerInfo)
unfolding is_empty_value
scheduler_list (c, panicked) = panics
scheduler_list (c, returned (a, some e)) =
    if is_empty_value e then ready (c, a) else exits (chain e)
scheduler_list (c, returned (a, none)) = ready (c, a)

-- The loop over the schedulers.
unfoldable pub find_self : Bool → Bytes → List SchedulerInfo → Startup Bool
unfolding own_account_id
find_self bad pk [] = ready false
find_self bad pk (v ∷ vs) =
    let rest = find_self bad pk vs in
    elim (own_account_id bad pk) [
      | none ↦ panics
      | some id ↦ if bytes_eq v.controller_user id then ready true else rest
    ]

abbrev pub result_of : Address.Result → Option Bytes
result_of (err e) = none
result_of (ok b) = some b

abbrev text_of : Address.Result → Bytes
text_of (err e) = []
text_of (ok b) = b

-- The base directory of an account.
unfoldable pub base_of : Boot → Confile → Bytes → DirPath
unfolding join
base_of boot cfg ctl_account = join (join (boot.components cfg.data_dir) ctl_account) base_dir

-- What Register returned.
unfoldable pub registered : Return Result → Startup Bytes
unfolding is_empty_value
registered panicked = panics
registered (returned (txhash, none)) = ready txhash
registered (returned (txhash, some e)) =
    if is_empty_value e
    then exits check_wallet
    else (if length txhash == 0 then exits (chain e) else exits (pending txhash))

-- The base directory is removed, with the error of GetCessAccount ignored.
unfoldable pub register :
    System → FileSystem → Boot → Confile → OwnClient → Files → Startup (Client × Files)
unfolding registered base_of remove_all
register sys fs boot cfg (c, pk) files =
    let out =
      Submit.register boot.hex boot.parsed boot.network c boot.register_link
        (result_of (decode_public_key_of_cess_account sys.crypto cfg.stash_acc)) cfg.service_addr
        (cfg.service_port % 2 ^ 16) in
    let base = base_of boot cfg (text_of (encode_public_key_as_cess_account sys.crypto pk)) in
    registered out.result >>= λ txhash. ready (out.client, remove_all fs base files)

-- From the list of schedulers on.
unfoldable pub ensure_registered :
    System
    → FileSystem
    → Boot
    → Confile
    → Bytes
    → Files
    → Client × List SchedulerInfo
    → Startup (Client × Files)
unfolding find_self register
ensure_registered sys fs boot cfg pk files (c, list) =
    find_self (is_some boot.bad_key) pk list >>= λ is_reg.
    if is_reg then ready (c, files) else register sys fs boot cfg (c, pk) files

-- From the balance on.
unfoldable pub with_balance :
    System → FileSystem → Boot → Confile → Bytes → Files → Client × ℕ → Startup (Client × Files)
unfolding sync_block scheduler_list get_all_scheduler_info ensure_registered
with_balance sys fs boot cfg pk files (c, free) =
    if ltb free minimum_balance then exits low_balance else do
      synced ← sync_block c boot.syncs
      found ←
          scheduler_list
            (get_all_scheduler_info synced boot.schedulers_link boot.schedulers_key boot.schedulers)
      ensure_registered sys fs boot cfg pk files found

-- From the client on.
unfoldable pub after_client :
    System → FileSystem → Boot → Confile → Files → Client → Bytes → Startup (OwnClient × Files)
unfolding answered get_account_info with_balance
after_client sys fs boot cfg files c pk = do
  r ← answered (
      get_account_info c boot.account_link boot.bad_key boot.account_enc boot.account_key
        boot.balance)
  (c', files') ← with_balance sys fs boot cfg pk files r
  ready ((c', pk), files')

-- The client and its public key, and the disk.
unfoldable pub build_chain :
    System → FileSystem → Boot → Confile → Files → Startup (OwnClient × Files)
unfolding new_chain_client after_client
build_chain sys fs boot cfg files = elim (new_chain_client boot.connection cfg.ctrl_prk) [
  | none ↦ exits connect
  | some (c, pk) ↦ after_client sys fs boot cfg files c pk
]

-- GetCessAccount in buildDir, whose error counts.
unfoldable pub own_base : System → Boot → Confile → Bytes → Startup DirPath
unfolding base_of
own_base sys boot cfg pk = elim (encode_public_key_as_cess_account sys.crypto pk) [
  | err e ↦ exits (account e)
  | ok a ↦ ready (base_of boot cfg a)
]

-- NewCache with no sizes.
unfoldable pub build_cache : Boot → DirPath → Files → Startup Cache
unfolding new_cache
build_cache boot dir files =
    elim (new_cache (is_some (find files dir)) boot.mkdir_cache boot.open_file boot.recover_file 0
      0) [ none ↦ exits cache | some c ↦ ready c ]

abbrev pub log_files : List Bytes
log_files =
    str "common"
    ∷ str "upfile"
    ∷ str "panic"
    ∷ str "verify"
    ∷ str "minerCache"
    ∷ str "fillerMeta"
    ∷ str "genFiller"
    ∷ str "speed"
    ∷ str "space"
    ∷ []

unfoldable pub build_logs : FileSystem → DirPath → Files → Startup (Logs × Files)
unfolding new_logs
build_logs fs dir files =
    new_logs fs (map (λ v. (v, dir ++ (v ++ str ".log") ∷ [])) log_files) files

-- The node that runs, the verifier's key and the disk.
pub record Node : Type 0 where
  pub confile : Confile
  pub chain_client : OwnClient
  pub base : DirPath
  pub cache_of : Cache
  pub key : PublicKey
  pub logs_of : Logs
  pub files : Files

-- `config1` and `config2` are the flags.
unfoldable pub run_cmd : System → FileSystem → Boot → Bytes → Bytes → Files → Startup Node
unfolding build_config_file build_chain own_base build_dir build_cache set_key build_logs
run_cmd sys fs boot config1 config2 files = do
  cfg ← build_config_file sys config1 config2
  (client, d1) ← build_chain sys fs boot cfg files
  base ← own_base sys boot cfg client.1
  d2 ← build_dir fs base d1
  store ← build_cache boot (join base cache_dir) d2
  (written, d3) ← build_logs fs (join base log_dir) d2
  ready (record {
    confile = cfg;
    chain_client = client;
    base = base;
    cache_of = store;
    key = (set_key (some store) unset).0;
    logs_of = written;
    files = d3;
  })
