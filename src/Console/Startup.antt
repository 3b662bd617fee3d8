-- ===== src/Console/Startup.antt =====
-- How a part of the start of the service ends (cmd/console/run.go).
use cess_scheduler.Prelude.{◌≡◌, ◌≢◌, refl, Bytes}
use cess_scheduler.Config.{ParseError}
use cess_scheduler.Chain.Types.{Error}
use cess_scheduler.Utils.Address.{AddressError}

-- The errors that end the process. `pending` carries a block hash; `mkdir` and `cache` are errors of
-- the system, `connect` of the substrate library.
pub data Reason : Type 0 where
  config : ParseError → Reason
  chain : Error → Reason
  account : AddressError → Reason
  pending : Bytes → Reason
  connect low_balance check_wallet mkdir cache : Reason

-- `syncing` still waits for the chain where the answers that were given end.
pub data Startup {ℓ} (A : Type ℓ) : Type ℓ where
  ready : A → Startup A
  exits : Reason → Startup A
  panics : Startup A
  syncing : Startup A

infixl 5 ◌>>=◌
abbrev pub ◌>>=◌ {ℓ κ} : {A : Type ℓ} {B : Type κ} → Startup A → (A → Startup B) → Startup B
ready a >>= f = f a
exits r >>= f = exits r
panics >>= f = panics
syncing >>= f = syncing

pub bind-ready {ℓ κ} :
    {A : Type ℓ} {B : Type κ} (m : Startup A) (f : A → Startup B) (b : B)
    → (m >>= f) ≡ ready b
    → (a : A) × (m ≡ ready a) × (f a ≡ ready b)
bind-ready (ready a) f b h = (a, refl, h)
bind-ready (exits r) f b h = cc
bind-ready panics f b h = cc
bind-ready syncing f b h = cc

pub ready-inj {ℓ} : {A : Type ℓ} {a b : A} → ready a ≡ ready b → a ≡ b
ready-inj h = cc

pub exits-ne-ready {ℓ} : {A : Type ℓ} {r : Reason} {a : A} → exits r ≢ ready a
exits-ne-ready h = cc
