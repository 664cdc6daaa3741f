-- ===== src/Quic/Server/Own.antt =====
-- The calls by which a QUIC server is set up: behind a kernel program, or else as a fallback does it.
use mathlib.Core.List.{append_assoc}
use mathlib.Core.Path.{subst}
use sfo_reuseport.Prelude.{
  ℕ, ◌≡◌, refl, ap, sym, ◌∙◌, Bool, true, false, List, [], ◌++◌, Option, none, some, length,
  if◌then◌else◌, arith,
}
use sfo_reuseport.Error.{Error, Result, ok, err}
use sfo_reuseport.Config.Udp.{UdpServiceConfig}
use sfo_reuseport.Config.Socket.{of_udp}
use sfo_reuseport.System.{Event, Oracle, World, Action, pure, continue, ◌>>=◌, ◌>>◌}
use sfo_reuseport.System.Spawned.{Spawned, spawned, spawned-append}
use sfo_reuseport.System.Registered.{Given, Each, Kept, Keeps, weaken-Keeps, gives_tasks}
use sfo_reuseport.Server.{ServerRuntime}
use sfo_reuseport.Server.Setup.Own.{with_tasks, with_tasks-Keeps}
use sfo_reuseport.Platform.Options.{Platform, linux, bsd, windows}
use sfo_reuseport.Platform.Linux.Quic.Own.{BehindProgram, ProgramTrail, bind-ProgramTrail}
use sfo_reuseport.Udp.State.{UdpServerState}
use sfo_reuseport.Udp.Task.{
  UdpTask, connection_id, quic_listen_on, dispatch_work, quic_receive_on, call_on,
}
use sfo_reuseport.Udp.Server.{uses_transparent_receive}
use sfo_reuseport.Udp.Server.Laws.{FedCallbacks}
use sfo_reuseport.Server.Setup.Laws.{OneFeeder}
use sfo_reuseport.Udp.Server.Registry.{Holds}
use sfo_reuseport.Quic.Server.{Kernel, bind_quic_workers}
use sfo_reuseport.Quic.Server.Laws.{bind_quic-Keeps}

module _ {F : Type 0} (k : Kernel) (r : ServerRuntime) (c : UdpServiceConfig F)
    (job : ℕ → ℕ → UdpTask) where
  -- The calls get the sockets of the workers behind a kernel program, and then spawn a task on each, on
  -- the executors of the workers in order.
  pub record OnProgram (calls : List (Event F UdpTask)) : Type 0 where
    pub sockets : List ℕ
    pub binding : List (Event F UdpTask)
    pub later : List (Event F UdpTask)
    pub are_all : calls ≡ binding ++ later
    pub behind :
        BehindProgram k.attach_ebpf k.attach_cbpf k.routes_probe
          (of_udp c)
          (length r.workers)
          sockets
          binding
    pub tasks : Each r.workers job 0 sockets (spawned later)

  -- Behind a kernel program, and only on Linux, or the tasks of the fallback.
  pub data Chosen (p : Platform) (Fallback : List (Spawned UdpTask) → Type 0)
      (calls : List (Event F UdpTask)) : Type 0 where
    on_program : p ≡ linux → OnProgram calls → Chosen p Fallback calls
    on_fallback : Fallback (spawned calls) → Chosen p Fallback calls

  -- On success, the calls made since.
  abbrev pub Chooses :
      Platform
      → (List (Spawned UdpTask) → Type 0)
      → World F UdpTask UdpServerState
      → Result Error (Unit {0}) × World F UdpTask UdpServerState
      → Type 0
  Chooses p Fallback w q =
      q.0 ≡ ok tt
      → (calls : List (Event F UdpTask)) × (q.1.log ≡ w.log ++ calls) × Chosen p Fallback calls

  module _ (body : ℕ → ℕ → Action F UdpTask UdpServerState (Unit {0}))
      (submits : (id x : ℕ) → Keeps Holds (body id x) (λ _. Given r.workers id (job id x)))
      (Fallback : List (Spawned UdpTask) → Type 0)
      (fallback : Action F UdpTask UdpServerState (Unit {0}))
      (falls_back : Keeps Holds fallback (λ _. Fallback)) where
    abbrev on_sockets : Option (List ℕ) → Action F UdpTask UdpServerState Bool
    on_sockets none = pure false
    on_sockets (some sockets) = with_tasks body sockets >> pure true

    abbrev unless_added : Bool → Action F UdpTask UdpServerState (Unit {0})
    unless_added added = if added then pure tt else fallback

    program-Chooses :
        (w v : World F UdpTask UdpServerState) (fds : List ℕ) (es : List (Event F UdpTask))
        → v.log ≡ w.log ++ es
        → BehindProgram k.attach_ebpf k.attach_cbpf k.routes_probe
            (of_udp c)
            (length r.workers)
            fds
            es
        → (q : Result Error (Unit {0}) × World F UdpTask UdpServerState)
        → Kept Holds (λ _. Each r.workers job 0 fds) v q
        → Chooses linux Fallback w (continue unless_added (continue (λ _. pure true) q))
    program-Chooses w v fds es l b (ok x, u) kept done = (
      es ++ kept.calls,
      kept.are_logged ∙ ap (λ x. x ++ kept.calls) l ∙ append_assoc w.log es kept.calls,
      on_program refl (record {
        sockets = fds;
        binding = es;
        later = kept.calls;
        are_all = refl;
        behind = b;
        tasks = kept.value;
      }),
    )
    program-Chooses w v fds es l b (err e, u) kept done = absurd (ground (arith, done))

    fallback-Chooses :
        (p : Platform) (w v : World F UdpTask UdpServerState) (es : List (Event F UdpTask))
        → v.log ≡ w.log ++ es
        → spawned es ≡ []
        → Chooses p Fallback w (fallback v)
    fallback-Chooses p w v es l q done =
        let kept = falls_back v in
        (
          es ++ kept.calls,
          kept.are_logged ∙ ap (λ x. x ++ kept.calls) l ∙ append_assoc w.log es kept.calls,
          on_fallback (
              subst Fallback
                (sym (spawned-append es kept.calls ∙ ap (λ js. js ++ spawned kept.calls) q))
                (gives_tasks Fallback (spawned kept.calls) (fallback v).0 kept.value done)),
        )

    bound-Chooses :
        (w : World F UdpTask UdpServerState)
        (b : Result Error (Option (List ℕ)) × World F UdpTask UdpServerState)
        → ProgramTrail k.attach_ebpf k.attach_cbpf k.routes_probe (of_udp c) (length r.workers) w b
        → Kept Holds (λ _ js. js ≡ []) w b
        → Chooses linux Fallback w (continue unless_added (continue on_sockets b))
    bound-Chooses w (ok (some fds), v) (es, l, b) quiet =
        program-Chooses w v fds es l b _ (with_tasks-Keeps Holds r.workers job body submits fds v)
    bound-Chooses w (ok none, v) t quiet =
        fallback-Chooses linux w v quiet.calls quiet.are_logged quiet.value
    bound-Chooses w (err e, v) t quiet = λ done. absurd (ground (arith, done))

    pub unbound-Chooses :
        (p : Platform) (w : World F UdpTask UdpServerState) → Chooses p Fallback w (fallback w)
    unbound-Chooses p w done =
        let kept = falls_back w in
        (
          kept.calls,
          kept.are_logged,
          on_fallback (gives_tasks Fallback (spawned kept.calls) (fallback w).0 kept.value done),
        )

    -- The kernel's program where it was taken, or else the fallback.
    pub chosen-Chooses :
        (system : Oracle F UdpTask) (tokio : Bool) (p : Platform)
        (w : World F UdpTask UdpServerState)
        → Chooses p Fallback w (
            (bind_quic_workers system k p (of_udp c) (length r.workers)
                >>= on_sockets
                >>= unless_added)
              w)
    unfolding bind_quic_workers
    chosen-Chooses system tokio linux w =
        bound-Chooses w _
          (bind-ProgramTrail k.attach_ebpf k.attach_cbpf k.routes_probe system k.disabled (of_udp c)
            (length r.workers) w)
          (weaken-Keeps Holds (λ _ _ g. g.1) (bind_quic-Keeps system k tokio r c linux) w)
    chosen-Chooses system tokio bsd w = unbound-Chooses bsd w
    chosen-Chooses system tokio windows w = unbound-Chooses windows w

-- A dispatcher for each worker, and a receiver on worker 0.
abbrev pub Received :
    {F : Type 0} → ServerRuntime → UdpServiceConfig F → List (Spawned UdpTask) → Type 0
Received r c js =
    (socket : ℕ) × OneFeeder r.workers (length r.workers) dispatch_work
      (quic_receive_on socket (length r.workers) c.max_concurrency_per_worker) js

-- A callback for each worker, and the dispatcher that feeds them.
abbrev pub Fed :
    {F : Type 0}
    → Platform
    → Bool
    → ServerRuntime
    → UdpServiceConfig F
    → List (Spawned UdpTask)
    → Type 0
Fed p tokio r c js =
    FedCallbacks connection_id (uses_transparent_receive p tokio c) c.routed_packet_channel_capacity
      r js

-- The calls of a server with handlers that is set up.
abbrev pub QuicHandlerCalls :
    {F : Type 0}
    → Kernel
    → Platform
    → ServerRuntime
    → UdpServiceConfig F
    → List (Event F UdpTask)
    → Type 0
QuicHandlerCalls k p r c calls =
    Chosen k r c (λ _ socket. quic_listen_on socket (length r.workers) c.max_concurrency_per_worker)
      p (Received r c) calls

-- The same of a server with socket callbacks.
abbrev pub QuicCallbackCalls :
    {F : Type 0}
    → Kernel
    → Platform
    → Bool
    → ServerRuntime
    → UdpServiceConfig F
    → List (Event F UdpTask)
    → Type 0
QuicCallbackCalls k p tokio r c calls =
    Chosen k r c (λ id socket. call_on socket id) p (Fed p tokio r c) calls
