-- ===== src/Config/Accepted.antt =====
-- The configurations that Parse accepts.
use cess_scheduler.Prelude.{
  ◌≡◌, ◌≢◌, ◌↔◌, ◌⊎◌, ◌≤◌, ◌<◌, ap, sym, ◌∙◌, inl, inr, refl, ap, sym, ◌∙◌, Bytes, true, Option,
  none, some, length, arith,
}
use cess_scheduler.Chain.Types.{returned}
use cess_scheduler.Utils.Address.{ok, decode_public_key_of_cess_account}
use cess_scheduler.Config.{
  Confile, Found, nothing, directory, plain_file, System, check_data_dir, check_ports,
  check_entries, check_read, check_found, parse, path_of,
}

-- What the entries have to meet.
pub record IsValid (sys : System) (c : Confile) : Type 0 where
  pub secret : sys.is_secret c.ctrl_prk ≡ true
  pub stash : (puk : Bytes) × (decode_public_key_of_cess_account sys.crypto c.stash_acc ≡ ok puk)
  pub has_dir : length c.data_dir ≢ 0
  pub has_rpc : length c.rpc_addr ≢ 0
  pub has_service : length c.service_addr ≢ 0
  pub open_port : 1024 ≤ c.service_port
  pub port_range : c.service_port ≤ 65535
  pub sgx_set : 0 < c.sgx_port
  pub sgx_range : c.sgx_port ≤ 65535
  pub dir_there :
      (sys.stat c.data_dir ≡ directory)
      ⊎ ((sys.stat c.data_dir ≡ nothing) × (sys.mkdir_all c.data_dir ≡ true))

dir-there :
    (sys : System) (dir : Bytes) (f : Found)
    → (check_data_dir sys dir f ≡ none)
      ↔ ((f ≡ directory) ⊎ ((f ≡ nothing) × (sys.mkdir_all dir ≡ true)))
unfolding check_data_dir
dir-there sys dir nothing = (λ e. inr (refl, ground arith), λ e. ground arith)
dir-there sys dir directory = (λ e. inl refl, λ e. refl)
dir-there sys dir plain_file = (λ e. ground arith, λ e. ground arith)

check_ports-none :
    (sys : System) (c : Confile)
    → (check_ports sys c ≡ none) ↔ (
        (1024 ≤ c.service_port)
        × (c.service_port ≤ 65535)
        × (0 < c.sgx_port)
        × (c.sgx_port ≤ 65535)
        × (check_data_dir sys c.data_dir (sys.stat c.data_dir) ≡ none))
unfolding check_ports
check_ports-none sys c = (λ e. ground arith, λ e. ground arith)

check_entries-none :
    (sys : System) (c : Confile)
    → (check_entries sys c ≡ none) ↔ (
        (sys.is_secret c.ctrl_prk ≡ true)
        × ((puk : Bytes) × (decode_public_key_of_cess_account sys.crypto c.stash_acc ≡ ok puk))
        × (length c.data_dir ≢ 0)
        × (length c.rpc_addr ≢ 0)
        × (length c.service_addr ≢ 0)
        × (check_ports sys c ≡ none))
unfolding check_entries
check_entries-none sys c = (λ e. ground arith, λ e. ground arith)

check_entries-IsValid : (sys : System) (c : Confile) → (check_entries sys c ≡ none) ↔ IsValid sys c
check_entries-IsValid sys c = (there, back)
  where
    there : check_entries sys c ≡ none → IsValid sys c
    there e =
        let (secret, stash, dir, rpc, service, ports) = (check_entries-none sys c).0 e in
        let (low, high, sgx, sgx_high, d) = (check_ports-none sys c).0 ports in
        record {
          secret = secret;
          stash = stash;
          has_dir = dir;
          has_rpc = rpc;
          has_service = service;
          open_port = low;
          port_range = high;
          sgx_set = sgx;
          sgx_range = sgx_high;
          dir_there = (dir-there sys c.data_dir (sys.stat c.data_dir)).0 d;
        }

    back : IsValid sys c → check_entries sys c ≡ none
    back v =
        let d = (dir-there sys c.data_dir (sys.stat c.data_dir)).1 v.dir_there in
        let ports =
          (check_ports-none sys c).1 (v.open_port, v.port_range, v.sgx_set, v.sgx_range, d) in
        (check_entries-none sys c).1 (v.secret, v.stash, v.has_dir, v.has_rpc, v.has_service, ports)

check_read-accepts :
    (sys : System) (r : Option Confile) (c : Confile)
    → (check_read sys r ≡ (none, some c)) ↔ ((r ≡ some c) × (check_entries sys c ≡ none))
unfolding check_read
check_read-accepts sys none c = (λ e. ground arith, λ e. ground arith)
check_read-accepts sys (some x) c = (
  λ e.
      let same : x ≡ c = ground arith in
      let fine : check_entries sys x ≡ none = ground arith in
      (ap some same, ap (check_entries sys) (sym same) ∙ fine),
  λ (e, fine).
      let same : x ≡ c = ground arith in λ i. ((ap (check_entries sys) same ∙ fine) i, e i),
)

check_found-accepts :
    (sys : System) (path : Bytes) (f : Found) (c : Confile)
    → (check_found sys path f ≡ returned (none, some c))
      ↔ ((f ≡ plain_file) × (sys.has_ext path ≡ true) × (sys.read path ≡ some c) × IsValid sys c)
unfolding check_found
check_found-accepts sys path nothing c = (λ e. ground arith, λ e. ground arith)
check_found-accepts sys path directory c = (λ e. ground arith, λ e. ground arith)
check_found-accepts sys path plain_file c = (
  λ e.
      let ext : sys.has_ext path ≡ true = ground arith in
      let read : check_read sys (sys.read path) ≡ (none, some c) = ground arith in
      let (r, fine) = (check_read-accepts sys (sys.read path) c).0 read in
      (refl, ext, r, (check_entries-IsValid sys c).0 fine),
  λ (_, ext, r, valid).
      rw (ext, check_found)
        (ap returned (
          (check_read-accepts sys (sys.read path) c).1 (r, (check_entries-IsValid sys c).1 valid))),
)

-- Parse returns a nil error with these entries exactly when the path, or the default one where it is empty,
-- is a file with an extension from which they are read, and the entries are valid: the secret and the
-- stash account decode, no entry is empty, the ports are in their ranges, and the data directory is there
-- or can be made.
pub parse_accepts :
    (sys : System) (fpath : Bytes) (c : Confile)
    → (parse sys fpath ≡ returned (none, some c)) ↔ (
        (sys.stat (path_of fpath) ≡ plain_file)
        × (sys.has_ext (path_of fpath) ≡ true)
        × (sys.read (path_of fpath) ≡ some c)
        × IsValid sys c)
unfolding parse
parse_accepts sys fpath c = check_found-accepts sys (path_of fpath) (sys.stat (path_of fpath)) c
