-- ===== src/Examples/RandomTests.antt =====
-- Random orders and texts (pkg/utils), and the text of a filler (node/sub_filler.go).
use cess_scheduler.Prelude.{
  ℕ, ◌+◌, ◌*◌, ◌≡◌, refl, Bytes, true, some, List, [], ◌∷◌, length, str, All,
}
use mathlib.Core.List.{Permᴰ}
use cess_scheduler.Utils.Random.{
  rand_slice, swaps, swap, exchange, get_randomcode, rand_loop, rand_str,
}
use cess_scheduler.Utils.Random.Shuffle.{rand_slice-Permᴰ}
use cess_scheduler.Utils.Random.Text.{Letter, rand_str_lem}
use cess_scheduler.Node.Filler.{filler_size}
use cess_scheduler.Node.Tags.{TagEnv, generate_filler}
use cess_scheduler.Node.Tags.Content.{filler_file, filler_file_lem}
use cess_scheduler.Examples.TagTests.{env}

abbrev draw : ℕ → ℕ
draw i = i * 0 + 1

abbrev four : List ℕ
four = 10 ∷ 20 ∷ 30 ∷ 40 ∷ []

same_elements : Permᴰ four (rand_slice draw four)
same_elements = rand_slice-Permᴰ draw four

shuffled : rand_slice draw four ≡ 30 ∷ 10 ∷ 40 ∷ 20 ∷ []
unfolding rand_slice swaps swap exchange
shuffled = refl

rand_str_lem_example :
    (s : Bytes) × (rand_str (λ k. k + 4194304) 12 ≡ some s) × (length s ≡ 12) × All Letter s
rand_str_lem_example = rand_str_lem (λ k. k + 4194304) 12

letters : rand_str (λ k. 65 + k) 3 ≡ some (str "bba")
unfolding rand_str rand_loop
letters = refl

code : get_randomcode (λ k. k) 3 ≡ str "cba"
unfolding get_randomcode
code = refl

abbrev one_name : TagEnv
one_name = record env { file_hash = λ t. some (1 ∷ []) }

filler_file_lem_example :
    (text : Bytes) × (filler_file true true (λ i k. k) filler_size ≡ some text)
    × (length text ≡ filler_size)
    × ((path : Bytes) × (generate_filler one_name text ≡ some path))
filler_file_lem_example = filler_file_lem one_name (λ i k. k) (λ t. (1 ∷ [], refl)) (λ p. refl)
