-- ===== src/Examples/ConfigTests.antt =====
-- The configuration file (pkg/confile).
use cess_scheduler.Prelude.{
  ℕ, ◌≡◌, ◌↔◌, refl, Bytes, true, false, none, some, [], ◌∷◌, ◌++◌, replicate, str, bytes_eq,
  if◌then◌else◌,
}
use cess_scheduler.Chain.Types.{returned}
use cess_scheduler.Utils.Address.{Crypto, decode_public_key_of_cess_account}
use cess_scheduler.Config.{Confile, directory, plain_file, System, parse, reserved_port}
use cess_scheduler.Config.Accepted.{IsValid, parse_accepts}

-- The address is the prefix, the key and the checksum.
abbrev pub plain : Crypto
plain = record { base58_encode = λ b. b; base58_decode = λ b. b; sum512 = λ b. replicate 64 0 }

abbrev pub stash : Bytes
stash = 0x50 ∷ 0xac ∷ (replicate 32 7 ++ (0 ∷ 0 ∷ []))

abbrev pub entries : ℕ → Confile
entries port = record {
  rpc_addr = str "ws://node";
  service_addr = str "1.2.3.4";
  service_port = port;
  sgx_port = 80;
  data_dir = str "/data";
  ctrl_prk = str "secret";
  stash_acc = stash;
}

abbrev pub system : ℕ → System
system port = record {
  crypto = plain;
  stat = λ p. if bytes_eq p (str "/data") then directory else plain_file;
  read = λ p. some (entries port);
  has_ext = λ p. true;
  is_secret = λ s. true;
  mkdir_all = λ p. false;
}

accepted : parse (system 15000) [] ≡ returned (none, some (entries 15000))
unfolding parse decode_public_key_of_cess_account
accepted = refl

reserved : parse (system 80) [] ≡ returned (some reserved_port, some (entries 80))
unfolding parse decode_public_key_of_cess_account
reserved = refl

parse_accepts_example : (parse (system 15000) [] ≡ returned (none, some (entries 15000))) ↔ (
    (plain_file ≡ plain_file)
    × (true ≡ true)
    × (some (entries 15000) ≡ some (entries 15000))
    × IsValid (system 15000) (entries 15000))
parse_accepts_example = parse_accepts (system 15000) [] (entries 15000)
