-- ===== src/Node/Tags/Saved.antt =====
-- The tag files that RequestAndSaveTag leaves on the disk.
use cess_scheduler.Prelude.{
  ℕ, ◌≡◌, refl, sym, ap, ◌∙◌, Bytes, Bool, true, false, Option, some, List, [], ◌∷◌, arith, length,
  take, str, bytes_eq, bytes_eq_sound, bytes_eq_self, All, length-append, take-append, Bool-cases,
  ◌⊎◌, inl, inr,
}
use cess_scheduler.Node.Tags.{
  PubTag, StorageTag, TagEnv, get_tag, Saving, refused, panics, unsaved, saved, saved_panics,
  save_tag, tag_path, Filler,
}
use cess_scheduler.Node.Tags.System.{Generator, idle, waiting, queueing, World, finish}

tag_path_injective : (p q : Bytes) → tag_path p ≡ tag_path q → p ≡ q
tag_path_injective p q e =
    let l = length-append p (str ".tag") in
    let m = length-append q (str ".tag") in
    let n : length p ≡ length q = let k = ap (λ (s : Bytes). length s) e in omega arith in
    sym (take-append p (str ".tag"))
    ∙ ap (λ (k : ℕ). take k (tag_path p)) n
    ∙ ap (take (length q)) e
    ∙ take-append q (str ".tag")

-- The path of a filler that the task is about to queue.
abbrev pub OfGenerator : (Filler → Type 0) → Generator → Type 0
OfGenerator P idle = Unit
OfGenerator P (waiting p) = Unit
OfGenerator P (queueing f) = P f

-- workLock is held while the task waits.
abbrev pub IsLocked : Generator → Bool → Type 0
IsLocked (waiting p) free = free ≡ false
IsLocked idle free = free ≡ true
IsLocked (queueing f) free = free ≡ true

module _ (env : TagEnv) (tee : Bytes → Option (ℕ × PubTag)) where
  -- The tag file of a filler holds what the service posts for that filler, decoded.
  pub record OwnTag (tags : Bytes → Option StorageTag) (p : Bytes) : Type 0 where
    pub result : PubTag
    pub tag : StorageTag
    pub from_service : get_tag (tee p) ≡ some result
    pub decoded : save_tag env (tag_path p) result ≡ saved tag
    pub on_disk : tags (tag_path p) ≡ some tag

  abbrev pub IsReady : (Bytes → Option StorageTag) → Filler → Type 0
  IsReady tags f = (f.tag_file ≡ tag_path f.filler_path) × OwnTag tags f.filler_path

  same_tag :
      (tags : Bytes → Option StorageTag) (p q : Bytes) (t : PubTag)
      → get_tag (tee p) ≡ some t
      → bytes_eq (tag_path p) (tag_path q) ≡ true
      → (own : OwnTag tags q) → save_tag env (tag_path p) t ≡ saved own.tag
  same_tag tags p q t f e own =
      let same = tag_path_injective p q (bytes_eq_sound _ _ e) in
      let r : t ≡ own.result =
        let n = sym f ∙ ap (λ (b : Bytes). get_tag (tee b)) same ∙ own.from_service in
        ground arith in
      ap (λ (b : Bytes). save_tag env (tag_path b) t) same
      ∙ ap (save_tag env (tag_path q)) r
      ∙ own.decoded

  -- Saving a tag keeps the tags of the other fillers, and of the same one.
  finish-OwnTag :
      (p q : Bytes) (t : PubTag) (w : World)
      → get_tag (tee p) ≡ some t
      → OwnTag w.tags q
      → OwnTag (finish p (save_tag env (tag_path p) t) w).tags q
  unfolding finish
  finish-OwnTag p q t w f own =
      go (save_tag env (tag_path p) t) refl (Bool-cases (bytes_eq (tag_path p) (tag_path q)))
    where
      with_disk :
          (tags : Bytes → Option StorageTag) → tags (tag_path q) ≡ some own.tag → OwnTag tags q
      with_disk tags e = record {
        result = own.result;
        tag = own.tag;
        from_service = own.from_service;
        decoded = own.decoded;
        on_disk = e;
      }

      go :
          (r : Saving)
          → save_tag env (tag_path p) t ≡ r
          → ((bytes_eq (tag_path p) (tag_path q) ≡ true)
              ⊎ (bytes_eq (tag_path p) (tag_path q) ≡ false))
          → OwnTag (finish p r w).tags q
      go refused e b = own
      go panics e b = own
      go unsaved e (inl b) = absurd (let n = sym e ∙ same_tag w.tags p q t f b own in ground arith)
      go unsaved e (inr b) = with_disk _ (rw b own.on_disk)
      go (saved a) e (inl b) =
          let same : a ≡ own.tag = let n = sym e ∙ same_tag w.tags p q t f b own in ground arith in
          with_disk _ (rw b (ap some same))
      go (saved a) e (inr b) = with_disk _ (rw b own.on_disk)
      go (saved_panics a) e (inl b) =
          absurd (let n = sym e ∙ same_tag w.tags p q t f b own in ground arith)
      go (saved_panics a) e (inr b) = with_disk _ (rw b own.on_disk)

  pub finish-IsReady :
      (p : Bytes) (t : PubTag) (w : World) (fs : List Filler)
      → get_tag (tee p) ≡ some t
      → All (IsReady w.tags) fs
      → All (IsReady (finish p (save_tag env (tag_path p) t) w).tags) fs
  finish-IsReady p t w [] f h = tt
  finish-IsReady p t w (x ∷ fs) f ((path, own), h) =
      ((path, finish-OwnTag p x.filler_path t w f own), finish-IsReady p t w fs f h)

  pub finish-next :
      (p : Bytes) (t : PubTag) (w : World)
      → get_tag (tee p) ≡ some t
      → let v = finish p (save_tag env (tag_path p) t) w in
        OfGenerator (IsReady v.tags) v.generator
        × IsLocked v.generator v.lock_free
        × (v.c_filler ≡ w.c_filler)
  unfolding finish
  finish-next p t w f = go (save_tag env (tag_path p) t) refl
    where
      go :
          (r : Saving)
          → save_tag env (tag_path p) t ≡ r
          → let v = finish p r w in
            OfGenerator (IsReady v.tags) v.generator
            × IsLocked v.generator v.lock_free
            × (v.c_filler ≡ w.c_filler)
      go refused e = (tt, refl, refl)
      go panics e = (tt, refl, refl)
      go unsaved e = (tt, refl, refl)
      go (saved_panics a) e = (tt, refl, refl)
      go (saved a) e = (
        (
          refl,
          record {
            result = t;
            tag = a;
            from_service = f;
            decoded = e;
            on_disk = rw (bytes_eq_self (tag_path p)) refl;
          },
        ),
        refl,
        refl,
      )
