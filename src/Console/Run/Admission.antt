-- ===== src/Console/Run/Admission.antt =====
-- The queries and the registration of buildChain (cmd/console/run.go), where they let the service start.
use cess_scheduler.Prelude.{
  ℕ, ◌%◌, ◌^◌, ◌==◌, ◌≡◌, ◌≢◌, refl, sym, ap, ◌∙◌, ◌⊎◌, inl, inr, Bytes, Bool, true, false, Option,
  none, some, List, [], ◌∷◌, length, bytes_eq, bytes_eq_sound, is_some, Bool-cases, arith,
  if◌then◌else◌,
}
use mathlib.Core.Path.{subst}
use mathlib.Core.List.{Memᴰ}
use mathlib.Core.List.Memᴰ
use cess_scheduler.Chain.Types.{Error, Return, returned, panicked, SchedulerInfo}
use cess_scheduler.Chain.Client.{Client, Link, OwnClient, own_account_id}
use cess_scheduler.Chain.Query.{
  Storage, found, missing, unreadable, Answer, get_account_info, get_sync_status,
  get_all_scheduler_info, query,
}
use cess_scheduler.Chain.Submit as Submit
use cess_scheduler.Chain.Submit.{Result}
use cess_scheduler.Config.{System, Confile}
use cess_scheduler.Console.Startup.{
  chain, ready, exits, check_wallet, pending, bind-ready, ready-inj, exits-ne-ready,
}
use cess_scheduler.Console.Directories.{Files, FileSystem}
use cess_scheduler.Utils.Address.{decode_public_key_of_cess_account}
use cess_scheduler.Console.Run.{
  result_of, Boot, answered, sync_block, is_empty_value, scheduler_list, find_self, registered,
  register, ensure_registered,
}

false-ne-true : false ≢ true
false-ne-true e = cc

pub answered_lem :
    {A : Type 0} (p : Client × Answer A) (r : Client × A)
    → answered p ≡ ready r
    → p.1 ≡ returned (r.1, none)
unfolding answered
answered_lem (c, panicked) r h = cc
answered_lem (c, returned (a, some e)) r h = cc
answered_lem (c, returned (a, none)) r h = cc

pub account_found :
    (c : Client) (l : Link) (acc enc key : Option Error) (s : Storage ℕ) (free : ℕ)
    → (get_account_info c l acc enc key s).1 ≡ returned (free, none)
    → (acc ≡ none) × (s ≡ found free)
unfolding get_account_info
account_found c l none none none (found a) free h = ground arith
account_found c l none none none missing free h = ground arith
account_found c l none none none (unreadable e) free h = ground arith
account_found c l none none (some e) s free h = ground arith
account_found c l none (some e) key s free h = ground arith
account_found c l (some e) enc key s free h = ground arith

pub chosen : {A : Type 0} (b : Bool) (x y : A) → b ≡ true → (if b then x else y) ≡ x
chosen b x y h = rw h

pub not_chosen : {A : Type 0} (b : Bool) (x y : A) → b ≡ false → (if b then x else y) ≡ y
not_chosen b x y h = rw h

status_found :
    (c : Client) (l : Link) (e : Option Error) (s b : Bool)
    → (get_sync_status c l e s).1 ≡ returned (b, none)
    → (e ≡ none) × (s ≡ b)
unfolding get_sync_status
status_found c l none s b h = ground arith
status_found c l (some e) s b h = ground arith

-- The loop ends with an answer that the node is not syncing.
pub synced_lem :
    (c c' : Client) (syncs : List (Link × Option Error × Bool))
    → sync_block c syncs ≡ ready c'
    → (l : Link) × Memᴰ (l, none, false) syncs
unfolding sync_block
synced_lem c c' [] h = cc
synced_lem c c' ((l, e, s) ∷ rest) h =
    let (r, first, later) =
      bind-ready (answered (get_sync_status c l e s))
        (λ r. (let go = sync_block r.0 rest in if r.1 then go else ready r.0)) c' h in
    let (no_error, same) =
      status_found c l e s r.1 (answered_lem (get_sync_status c l e s) r first) in
    elim (Bool-cases r.1) [
      | inl syncs ↦
          let (l', m) =
            synced_lem r.0 c' rest
              (sym (chosen r.1 (sync_block r.0 rest) (ready r.0) syncs) ∙ later) in
          (l', Memᴰ.tail m)
      | inr done ↦ (l, Memᴰ.head (rw (no_error, same, done) refl))
    ]

-- The account is in the list.
pub Listed : Bytes → List SchedulerInfo → Type 0
Listed pk list = (v : SchedulerInfo) × Memᴰ v list × (v.controller_user ≡ pk)

find_self_lem :
    (pk : Bytes) (list : List SchedulerInfo) → find_self false pk list ≡ ready true → Listed pk list
unfolding find_self own_account_id Listed
find_self_lem pk [] h = absurd (false-ne-true (ready-inj h))
find_self_lem pk (v ∷ vs) h = elim (Bool-cases (bytes_eq v.controller_user pk)) [
  | inl same ↦ (v, Memᴰ.head refl, bytes_eq_sound v.controller_user pk same)
  | inr other ↦
      let (w, m, e) = find_self_lem pk vs (
        sym (not_chosen (bytes_eq v.controller_user pk) (ready true) (find_self false pk vs) other)
        ∙ h) in
      (w, Memᴰ.tail m, e)
]

pub list_read :
    (p : Client × Answer (List SchedulerInfo)) (r : Client × List SchedulerInfo)
    → scheduler_list p ≡ ready r
    → (o : Option Error) × (p.1 ≡ returned (r.1, o))
unfolding scheduler_list
list_read (c, panicked) r h = cc
list_read (c, returned (a, none)) r h = (none, cc)
list_read (c, returned (a, some e)) r h = elim (Bool-cases (is_empty_value e)) [
  | inl empty ↦ (
    some e,
    ap (λ t. returned (t.1, some e))
        (ready-inj (sym (chosen (is_empty_value e) (ready (c, a)) (exits (chain e)) empty) ∙ h)),
  )
  | inr other ↦ absurd (
      exits-ne-ready
        (sym (not_chosen (is_empty_value e) (ready (c, a)) (exits (chain e)) other) ∙ h))
]

pub list_found :
    (c : Client) (l : Link) (key : Option Error) (s : Storage (List SchedulerInfo))
    (a : List SchedulerInfo) (o : Option Error)
    → (get_all_scheduler_info c l key s).1 ≡ returned (a, o)
    → (s ≡ found a) ⊎ (a ≡ [])
unfolding get_all_scheduler_info query
list_found c l (some e) s a o h = ground arith
list_found c l none (found list) a o h = ground arith
list_found c l none missing a o h = ground arith
list_found c l none (unreadable e) a o h = ground arith

refused_lem :
    (e : Error) (t tx : Bytes)
    → (if length t == 0 then exits (chain e) else exits (pending t)) ≢ ready tx
refused_lem e t tx h = elim (Bool-cases (length t == 0)) [
  | inl unsent ↦ absurd (
      exits-ne-ready
        (sym (chosen (length t == 0) (exits (chain e)) (exits (pending t)) unsent) ∙ h))
  | inr sent ↦ absurd (
      exits-ne-ready
        (sym (not_chosen (length t == 0) (exits (chain e)) (exits (pending t)) sent) ∙ h))
]

pub nobody : (pk : Bytes) (list : List SchedulerInfo) → list ≡ [] → ¬ (Listed pk list)
unfolding Listed
nobody pk list e (v, m, _) = Memᴰ.not-nil (subst (Memᴰ v) e m)

registered_lem :
    (o : Return Result) (tx : Bytes) → registered o ≡ ready tx → o ≡ returned (tx, none)
unfolding registered
registered_lem panicked tx h = cc
registered_lem (returned (t, none)) tx h = cc
registered_lem (returned (t, some e)) tx h = elim (Bool-cases (is_empty_value e)) [
  | inl empty ↦
      absurd (exits-ne-ready (sym (chosen (is_empty_value e) (exits check_wallet) _ empty) ∙ h))
  | inr other ↦
      absurd
        (refused_lem e t tx (sym (not_chosen (is_empty_value e) (exits check_wallet) _ other) ∙ h))
]

-- Register, called with the entries of the configuration, returned without an error.
pub RegisteredNow : System → Boot → Confile → Type 0
RegisteredNow sys boot cfg =
    (d : Client) × (tx : Bytes) × ((Submit.register boot.hex boot.parsed boot.network d
        boot.register_link (result_of (decode_public_key_of_cess_account sys.crypto cfg.stash_acc))
        cfg.service_addr (cfg.service_port % 2 ^ 16)).result
      ≡ returned (tx, none))

register_lem :
    (sys : System) (fs : FileSystem) (boot : Boot) (cfg : Confile) (own : OwnClient) (files : Files)
    (r : Client × Files)
    → register sys fs boot cfg own files ≡ ready r
    → RegisteredNow sys boot cfg
unfolding register RegisteredNow
register_lem sys fs boot cfg (c, pk) files r h =
    let (tx, ok, _) =
      bind-ready
        (registered
          (Submit.register boot.hex boot.parsed boot.network c boot.register_link
            (result_of (decode_public_key_of_cess_account sys.crypto cfg.stash_acc))
            cfg.service_addr (cfg.service_port % 2 ^ 16)).result)
        (λ tx. _) r h in
    (c, tx, registered_lem _ tx ok)

pub ensure_lem :
    (sys : System) (fs : FileSystem) (boot : Boot) (cfg : Confile) (pk : Bytes) (files : Files)
    (c : Client) (list : List SchedulerInfo) (r : Client × Files)
    → boot.bad_key ≡ none
    → ensure_registered sys fs boot cfg pk files (c, list) ≡ ready r
    → Listed pk list ⊎ RegisteredNow sys boot cfg
unfolding ensure_registered
ensure_lem sys fs boot cfg pk files c list r good h =
    let (b, found_it, later) =
      bind-ready (find_self (is_some boot.bad_key) pk list) (λ is_reg. _) r h in
    elim (Bool-cases b) [
      | inl is_reg ↦ inl (
          find_self_lem pk list
            (ap (λ t. find_self (is_some t) pk list) (sym good) ∙ found_it ∙ ap ready is_reg))
      | inr not_reg ↦ inr (
          register_lem sys fs boot cfg (c, pk) files r
            (sym (not_chosen b (ready (c, files)) (register sys fs boot cfg (c, pk) files) not_reg)
              ∙ later))
    ]
