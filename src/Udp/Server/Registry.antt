-- ===== src/Udp/Server/Registry.antt =====
-- The registries of a UDP server while it is set up: the state has registered the tasks that were
-- spawned, each in the registry of its kind.
use mathlib.Core.List.{append-nil}
use mathlib.Core.Path.{subst}
use sfo_reuseport.Prelude.{
  ℕ, ◌≡◌, refl, ap, sym, ◌∙◌, Bool, true, false, not, List, [], ◌∷◌, ◌++◌, arith,
}
use sfo_reuseport.Error.{Error, runtime, text, Result, ok, err, ◌>>=◌}
use sfo_reuseport.System.{try_clone, Oracle}
use sfo_reuseport.System.Spawned.{Spawned}
use sfo_reuseport.System.Submitted.{ok-injective}
use sfo_reuseport.Server.Setup.Laws.{KeepsQuiet, then-Keeps, ask-Keeps, update-Keeps}
use sfo_reuseport.Udp.State.{
  UdpServerState, locked, lock, registry_poisoned, register_task, register_callback_task,
  register_close_socket,
}
use sfo_reuseport.Udp.Task.{UdpTask, is_callback}
use sfo_reuseport.Udp.Server.{keep_close_socket, locked_first}

abbrev keep : Bool → ℕ → List ℕ → List ℕ
keep true task l = task ∷ l
keep false task l = l

-- The handles of the tasks that are not callbacks, and of those that are.
unfoldable pub tasks_of : List (Spawned UdpTask) → List ℕ
tasks_of [] = []
tasks_of (s ∷ js) = keep (not (is_callback s.job)) s.task (tasks_of js)

unfoldable pub callbacks_of : List (Spawned UdpTask) → List ℕ
callbacks_of [] = []
callbacks_of (s ∷ js) = keep (is_callback s.job) s.task (callbacks_of js)

keep-append : (b : Bool) (task : ℕ) (l k : List ℕ) → keep b task (l ++ k) ≡ keep b task l ++ k
keep-append true task l k = refl
keep-append false task l k = refl

tasks_of-append :
    (js ks : List (Spawned UdpTask)) → tasks_of (js ++ ks) ≡ tasks_of js ++ tasks_of ks
unfolding tasks_of
tasks_of-append [] ks = refl
tasks_of-append (s ∷ js) ks =
    ap (keep (not (is_callback s.job)) s.task) (tasks_of-append js ks)
    ∙ keep-append (not (is_callback s.job)) s.task (tasks_of js) (tasks_of ks)

callbacks_of-append :
    (js ks : List (Spawned UdpTask)) → callbacks_of (js ++ ks) ≡ callbacks_of js ++ callbacks_of ks
unfolding callbacks_of
callbacks_of-append [] ks = refl
callbacks_of-append (s ∷ js) ks =
    ap (keep (is_callback s.job) s.task) (callbacks_of-append js ks)
    ∙ keep-append (is_callback s.job) s.task (callbacks_of js) (callbacks_of ks)

-- An active server that has registered these tasks; nothing is said of its sockets.
abbrev pub Holds : UdpServerState → List (Spawned UdpTask) → Type 0
Holds s js =
    (s.active ≡ true)
    × (s.tasks ≡ locked (tasks_of js))
    × (s.callback_tasks ≡ locked (callbacks_of js))

abbrev with_task : UdpTask → ℕ → ℕ → List (Spawned UdpTask) → List (Spawned UdpTask)
with_task job executor task js = js ++ record { executor = executor; job = job; task = task } ∷ []

-- Where a task that was just spawned goes.
tasks_of-last :
    (job : UdpTask) (executor task : ℕ) (js : List (Spawned UdpTask)) (b : Bool)
    → is_callback job ≡ b
    → tasks_of (with_task job executor task js) ≡ tasks_of js ++ keep (not b) task []
unfolding tasks_of
tasks_of-last job executor task js b e =
    tasks_of-append js _ ∙ ap (λ c. tasks_of js ++ keep (not c) task []) e

callbacks_of-last :
    (job : UdpTask) (executor task : ℕ) (js : List (Spawned UdpTask)) (b : Bool)
    → is_callback job ≡ b
    → callbacks_of (with_task job executor task js) ≡ callbacks_of js ++ keep b task []
unfolding callbacks_of
callbacks_of-last job executor task js b e =
    callbacks_of-append js _ ∙ ap (λ c. callbacks_of js ++ keep c task []) e

-- What the submission of a task needs of the registration that follows it.
abbrev pub Registers : (ℕ → UdpServerState → Result Error UdpServerState) → UdpTask → Type 0
Registers register job =
    (s : UdpServerState) (js : List (Spawned UdpTask)) (executor task : ℕ)
    → Holds s js
    → (t : UdpServerState) × (register task s ≡ ok t)
      × Holds t (js ++ record { executor = executor; job = job; task = task } ∷ [])

pub task-Registers : (job : UdpTask) → is_callback job ≡ false → Registers register_task job
unfolding register_task
task-Registers job e s js executor task (active, tasks, callbacks) = (
  record s { tasks = locked (tasks_of js ++ task ∷ []) },
  ap
      (λ m. lock (runtime (text "udp task registry lock poisoned")) m >>= λ l.
        ok (record s { tasks = locked (l ++ task ∷ []) }))
      tasks,
  (
    active,
    ap locked (sym (tasks_of-last job executor task js false e)),
    callbacks
        ∙ ap locked (
            sym (append-nil (callbacks_of js))
            ∙ sym (callbacks_of-last job executor task js false e)),
  ),
)

pub callback-Registers :
    (job : UdpTask) → is_callback job ≡ true → Registers register_callback_task job
unfolding register_callback_task
callback-Registers job e s js executor task (active, tasks, callbacks) = (
  record s { callback_tasks = locked (callbacks_of js ++ task ∷ []) },
  ap
      (λ m. lock (runtime (text "udp callback task registry lock poisoned")) m >>= λ l.
        ok (record s { callback_tasks = locked (l ++ task ∷ []) }))
      callbacks,
  (
    active,
    tasks
        ∙ ap locked
            (sym (append-nil (tasks_of js)) ∙ sym (tasks_of-last job executor task js true e)),
    ap locked (sym (callbacks_of-last job executor task js true e)),
  ),
)

-- The clone kept for the closing of the server is no task.
after_lock :
    (s t : UdpServerState) (js : List (Spawned UdpTask)) (q : Result Error (List ℕ))
    → locked_first s q ≡ ok t
    → Holds s js
    → Holds t js
after_lock s t js (ok l) e h = subst (λ x. Holds x js) (ok-injective s t e) h
after_lock s t js (err x) e h = absurd (ground (arith, e))

after_clone :
    (s t : UdpServerState) (js : List (Spawned UdpTask)) (clone : ℕ) (q : Result Error (List ℕ))
    → (q >>= λ l. ok (record s { close_sockets = locked (l ++ clone ∷ []) })) ≡ ok t
    → Holds s js
    → Holds t js
after_clone s t js clone (ok l) e h =
    subst (λ x. Holds x js)
      (ok-injective (record s { close_sockets = locked (l ++ clone ∷ []) }) t e) h
after_clone s t js clone (err x) e h = absurd (ground (arith, e))

pub keep_close_socket-Keeps :
    {F : Type 0} (system : Oracle F UdpTask) (socket : ℕ)
    → KeepsQuiet Holds (keep_close_socket system socket)
unfolding keep_close_socket register_close_socket
keep_close_socket-Keeps system socket =
    then-Keeps Holds
      (update-Keeps Holds (λ s. locked_first s (lock registry_poisoned s.close_sockets))
        (λ s t js. after_lock s t js (lock registry_poisoned s.close_sockets)))
      (λ _. then-Keeps Holds (ask-Keeps Holds system (try_clone socket) refl) (λ clone.
        update-Keeps Holds (register_close_socket (ok clone))
          (λ s t js. after_clone s t js clone (lock registry_poisoned s.close_sockets))))
