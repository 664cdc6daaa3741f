-- ===== src/Tcp/State.antt =====
-- `TcpServerState` of src/core/tcp.rs: the flag and the tasks of a TCP server. A task is a number.
use mathlib.Core.List.{append-nil, append_assoc}
use sfo_reuseport.Prelude.{
  ℕ, ◌≡◌, refl, ap, sym, ◌∙◌, Bool, true, false, List, [], ◌∷◌, ◌++◌, if◌then◌else◌,
}
use sfo_reuseport.Error.{Error, runtime, text, Result, ok, ◌>>=◌}
use sfo_reuseport.Udp.State.{Mutex, locked, lock}

pub record TcpServerState : Type 0 where
  pub active : Bool
  pub tasks : Mutex (List ℕ)

unfoldable pub new : TcpServerState
new = record { active = true; tasks = locked [] }

unfoldable pub register_task : ℕ → TcpServerState → Result Error TcpServerState
register_task task s = lock (runtime (text "tcp task registry lock poisoned")) s.tasks >>= λ tasks.
    ok (record s { tasks = locked (tasks ++ task ∷ []) })

-- The state after `close`, and the tasks that it has cancelled.
unfoldable pub close : TcpServerState → TcpServerState × List ℕ
close s =
    if s.tasks.poisoned
    then (record s { active = false }, [])
    else (record { active = false; tasks = locked [] }, s.tasks.value)

-- The registration of several tasks, one after the other.
pub register_all : List ℕ → TcpServerState → Result Error TcpServerState
unfolding register_task
register_all [] s = ok s
register_all (task ∷ tasks) s = register_task task s >>= register_all tasks

abbrev holding : Bool → List ℕ → TcpServerState
holding active tasks = record { active = active; tasks = locked tasks }

register_all-holding :
    (active : Bool) (tasks before : List ℕ)
    → register_all tasks (holding active before) ≡ ok (holding active (before ++ tasks))
unfolding register_all register_task
register_all-holding active [] before = ap (λ l. ok (holding active l)) (sym (append-nil before))
register_all-holding active (task ∷ tasks) before =
    register_all-holding active tasks (before ++ task ∷ [])
    ∙ ap (λ l. ok (holding active l)) (append_assoc before (task ∷ []) tasks)

-- A server that has registered tasks cancels exactly these, in order, when it is closed, and is then
-- inactive; a second `close` cancels nothing and changes nothing.
pub close-register :
    (tasks : List ℕ)
    → (s : TcpServerState) × (register_all tasks new ≡ ok s)
      × ((close s).1 ≡ tasks)
      × ((close s).0.active ≡ false)
      × (close (close s).0 ≡ ((close s).0, []))
unfolding close new
close-register tasks = (holding true tasks, register_all-holding true tasks [], refl, refl, refl)
