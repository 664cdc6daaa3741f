-- ===== src/Quic/Server/Invalid.antt =====
-- A UDP or QUIC server whose channels for routed packets would hold nothing.
use sfo_reuseport.Prelude.{◌≡◌, ap, Bool}
use sfo_reuseport.Error.{Error, invalid_config, text, Result, err}
use sfo_reuseport.Config.Udp.{UdpServiceConfig}
use sfo_reuseport.System.{Oracle, World, continue}
use sfo_reuseport.Server.{ServerRuntime}
use sfo_reuseport.Platform.Options.{Platform}
use sfo_reuseport.Udp.State.{UdpServerState}
use sfo_reuseport.Udp.Task.{UdpTask}
use sfo_reuseport.Udp.Server.{validated}
use sfo_reuseport.Udp.Server.Serve.{validated-err}
use sfo_reuseport.Quic.Server.{Kernel}

abbrev pub Refused :
    {F : Type 0}
    → World F UdpTask UdpServerState
    → Result Error (Unit {0}) × World F UdpTask UdpServerState
    → Type 0
Refused w r =
    r ≡ (err (invalid_config (text "routed packet channel capacity must be greater than zero")), w)

-- With a channel capacity of zero all four ways to set a UDP or a QUIC server up return the error that
-- says so, without a call of the system: no socket is opened and no task is spawned.
pub serve-Refused :
    {F : Type 0} (system : Oracle F UdpTask) (k : Kernel) (tokio : Bool) (r : ServerRuntime)
    (c : UdpServiceConfig F) (p : Platform) (w : World F UdpTask UdpServerState)
    → c.routed_packet_channel_capacity ≡ 0
    → Refused w (sfo_reuseport.Udp.Server.serve_with_state system p tokio r c w)
      × Refused w (sfo_reuseport.Udp.Server.serve_socket system p tokio r c w)
      × Refused w (sfo_reuseport.Quic.Server.serve_with_state system k p tokio r c w)
      × Refused w (sfo_reuseport.Quic.Server.serve_socket system k p tokio r c w)
unfolding sfo_reuseport.Udp.Server.serve_with_state sfo_reuseport.Udp.Server.serve_socket
    sfo_reuseport.Quic.Server.serve_with_state sfo_reuseport.Quic.Server.serve_socket
serve-Refused system k tokio r c p w e = (
  ap (continue _) (validated-err c e w),
  ap (continue _) (validated-err c e w),
  ap (continue _) (validated-err c e w),
  ap (continue _) (validated-err c e w),
)
