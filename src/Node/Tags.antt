-- ===== src/Node/Tags.antt =====
-- The making of fillers: GenerateFiller and RequestAndSaveTag of node/sub_filler.go, and GetTag of
-- node/route.go. hash, base64, hex and math/big are a `TagEnv`. The key that is set from the
-- first tag is Proof/Key.antt's. The steps of the task and of the channels of node/param.go stand in Node/Tags/System.antt.
use cess_scheduler.Prelude.{
  ℕ, ◌+◌, ◌<◌, ◌≡◌, Bytes, Bool, true, false, Option, none, some, List, [], ◌∷◌, ◌++◌, length, str,
  bytes_eq, ◌==◌, if◌then◌else◌,
}
use cess_scheduler.Node.Filler.{filler_size}
pub mod System
pub mod Content
pub mod Calm
pub mod Saved
pub mod Own
pub mod Late

-- What the service posts, less the status.
pub record PubTag : Type 0 where
  pub u : Bytes
  pub name : Bytes
  pub n : ℕ
  pub sig_above : Bytes
  pub phi : List Bytes
  pub sig_root_hash : Bytes
  pub spk_e : Bytes
  pub spk_n : Bytes

-- What is saved.
pub record StorageTag : Type 0 where
  pub u : Bytes
  pub name : Bytes
  pub n : ℕ
  pub sig_above : Bytes
  pub phi : List Bytes
  pub sig_root_hash : Bytes
  pub spk_e : Bytes
  pub spk_n : Bytes

-- `file_hash` and `join` give the path of a filler, `can_rename` whether it can be moved there, `can_save`
-- whether a tag can be saved at a path.
pub record TagEnv : Type 0 where
  pub base64 : Bytes → Option Bytes
  pub hex : Bytes → Option Bytes
  pub big_int : Bytes → Option ℕ
  pub big_bytes : ℕ → Bytes
  pub file_hash : Bytes → Option Bytes
  pub join : Bytes → Bytes
  pub can_rename : Bytes → Bool
  pub can_save : Bytes → Bool

abbrev pub sgx_report_suc : ℕ
sgx_report_suc = 100000

abbrev pub num_filler_reserved : ℕ
num_filler_reserved = 5

-- The body of a request to GetTag, `none` if it cannot be read: its status and its tag. The tag that goes on.
unfoldable pub get_tag : Option (ℕ × PubTag) → Option PubTag
get_tag none = none
get_tag (some (status, tag)) = if status == sgx_report_suc then some tag else none

-- A filler of a text: its path, by its hash.
unfoldable pub generate_filler : TagEnv → Bytes → Option Bytes
generate_filler env text =
    if length text == filler_size
    then elim (env.file_hash text) [
      | none ↦ none
      | some h ↦ if env.can_rename (env.join h) then some (env.join h) else none
    ]
    else none

-- The numbers of phi as bytes; `none` is a nil pointer.
unfoldable pub decode_phi : TagEnv → List Bytes → Option (List Bytes)
decode_phi env [] = some []
decode_phi env (v ∷ vs) =
    let rest = decode_phi env vs in
    elim (env.big_int v) [
      | none ↦ none
      | some n ↦ elim rest [ none ↦ none | some bs ↦ some (env.big_bytes n ∷ bs) ]
    ]

-- How RequestAndSaveTag goes on from a tag: with an error, a panic, an error of saveTagToFile, after which the
-- tag's file is gone, with the tag saved, or saved before a panic.
pub data Saving : Type 0 where
  refused panics unsaved : Saving
  saved saved_panics : StorageTag → Saving

-- The lines behind saveTagToFile.
abbrev pub conclude_tag : Option ℕ → StorageTag → Saving
conclude_tag none tag = saved_panics tag
conclude_tag (some e) tag = saved tag

unfoldable pub save_tag : TagEnv → Bytes → PubTag → Saving
unfolding decode_phi
save_tag env tagpath t = elim (env.base64 t.u) [
  | none ↦ refused
  | some u ↦ elim (env.base64 t.name) [
    | none ↦ refused
    | some name ↦ elim (env.hex t.sig_above) [
      | none ↦ refused
      | some sig ↦ elim (decode_phi env t.phi) [
        | none ↦ panics
        | some phi ↦ elim (env.hex t.sig_root_hash) [
          | none ↦ refused
          | some root ↦
              let tag : StorageTag = record {
                u = u;
                name = name;
                n = t.n;
                sig_above = sig;
                phi = phi;
                sig_root_hash = root;
                spk_e = t.spk_e;
                spk_n = t.spk_n;
              } in
              if env.can_save tagpath then conclude_tag (env.big_int t.spk_e) tag else unsaved
        ]
      ]
    ]
  ]
]

abbrev pub tag_path : Bytes → Bytes
tag_path p = p ++ str ".tag"

-- Its hash, the base of the path, is left out.
pub record Filler : Type 0 where
  pub filler_path : Bytes
  pub tag_file : Bytes
