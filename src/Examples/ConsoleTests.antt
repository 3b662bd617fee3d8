-- ===== src/Examples/ConsoleTests.antt =====
-- The command update (cmd/console/update.go).
use cess_scheduler.Prelude.{◌≡◌, refl, Bytes, Bool, true, some, List, [], ◌∷◌, str}
use cess_scheduler.Utils.Text.{atoi, magnitude, digits, is_ipv4}
use cess_scheduler.Chain.Client.{Client}
use cess_scheduler.Console.{is_int, bad_range, bad_number, update_address, update_cmd}
use cess_scheduler.Examples.ChainTests.{accepting, up, healthy, text}

abbrev any_address : Bytes → Bool
any_address s = true

abbrev args : Bytes → List Bytes
args port = str "scheduler" ∷ str "update" ∷ str "1.2.3.4" ∷ port ∷ []

-- The lowest port of the message is refused.
lowest :
    update_cmd text any_address accepting (some up) healthy true (args (str "1024")) ≡ bad_range
unfolding update_cmd update_address is_int atoi magnitude digits is_ipv4
lowest = refl

no_number :
    update_cmd text any_address accepting (some up) healthy true (args (str "x")) ≡ bad_number
unfolding update_cmd update_address is_int atoi magnitude digits is_ipv4
no_number = refl
