-- ===== src/Cache.antt =====
-- pkg/db: the store of keys and values. leveldb keeps it; its failures are arguments.
use cess_scheduler.Prelude.{
  ◌≡◌, refl, true, false, bytes_eq_self, ℕ, ◌*◌, ◌/◌, Bytes, Bool, Option, none, some, bytes_eq,
  is_some, ltb, if◌then◌else◌,
}

pub record Cache : Type 0 where
  pub entries : Bytes → Option Bytes

abbrev pub empty : Cache
empty = record { entries = λ k. none }

abbrev pub put_entry : Bytes → Option Bytes → (Bytes → Option Bytes) → Bytes → Option Bytes
put_entry k v es k' = if bytes_eq k k' then v else es k'

-- `none` is leveldb's error for a missing key.
unfoldable pub get : Cache → Bytes → Option Bytes
get c k = c.entries k

unfoldable pub has : Cache → Bytes → Bool
has c k = is_some (c.entries k)

-- `stored` says that leveldb wrote.
unfoldable pub put : Bool → Bytes → Bytes → Cache → Cache
put stored k v c = if stored then record { entries = put_entry k (some v) c.entries } else c

unfoldable pub delete : Bool → Bytes → Cache → Cache
delete stored k c = if stored then record { entries = put_entry k none c.entries } else c

-- The numbers of the options.
pub record Options : Type 0 where
  pub open_files_cache_capacity : ℕ
  pub block_cache_capacity : ℕ
  pub write_buffer : ℕ

abbrev at_least : ℕ → ℕ → ℕ
at_least low n = if ltb n low then low else n

unfoldable pub configure_options : ℕ → ℕ → Options
configure_options cache handles = record {
  open_files_cache_capacity = at_least 32 handles;
  block_cache_capacity = at_least 16 cache / 2 * 1048576;
  write_buffer = at_least 16 cache / 4 * 1048576;
}

-- What leveldb makes of a directory.
pub data Opened : Type 0 where
  opened : Cache → Opened
  corrupted : Opened
  fails : Opened

-- newLevelDB: a corrupted store is recovered, if leveldb can.
unfoldable pub new_level_db : (Options → Opened) → Option Cache → ℕ → ℕ → Option Cache
unfolding configure_options
new_level_db open_file recover memory handles =
    elim (open_file (configure_options memory handles)) [
      | opened c ↦ some c
      | corrupted ↦ recover
      | fails ↦ none
    ]

-- NewCache: the directory is there, or can be made.
unfoldable pub new_cache : Bool → Bool → (Options → Opened) → Option Cache → ℕ → ℕ → Option Cache
unfolding new_level_db
new_cache exists mkdir open_file recover memory handles =
    if exists
    then new_level_db open_file recover memory handles
    else (if mkdir then new_level_db open_file recover memory handles else none)

pub get-put : (c : Cache) (k v : Bytes) → get (put true k v c) k ≡ some v
unfolding get put
get-put c k v = rw (bytes_eq_self k) refl

pub get-put_other :
    (stored : Bool) (c : Cache) (k k' v : Bytes)
    → bytes_eq k k' ≡ false
    → get (put stored k v c) k' ≡ get c k'
unfolding get put
get-put_other true c k k' v h = rw h refl
get-put_other false c k k' v h = refl
