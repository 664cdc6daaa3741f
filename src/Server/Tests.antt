-- ===== src/Server/Tests.antt =====
-- Runs of the worker runtime with two workers.
use sfo_reuseport.Prelude.{ℕ, ◌+◌, ◌≡◌, refl, ◌==◌, false, [], ◌∷◌, none, some}
use sfo_reuseport.Error.{IoError, Result, ok}
use sfo_reuseport.Config.{ServerRuntimeConfig, fixed}
use sfo_reuseport.Server.{ServerRuntime, start, current_worker_id}
use sfo_reuseport.Server.Laws.{running}

-- Worker `id` has executor `10 + id`, and a task is numbered after its executor.
abbrev start_worker : ℕ → Result IoError ℕ
start_worker id = ok (10 + id)

abbrev config : ServerRuntimeConfig
config = record { workers = fixed 2 }

abbrev two : ServerRuntime
two = running (10 ∷ 11 ∷ []) 0

starts : start config 8 start_worker ≡ ok two
unfolding start
starts = refl

foreign : current_worker_id (λ _. false) (running (10 ∷ 11 ∷ []) 5) ≡ none
unfolding current_worker_id
foreign = refl

own : current_worker_id (λ x. x == 11) (running (10 ∷ 11 ∷ []) 5) ≡ some 1
unfolding current_worker_id
own = refl
