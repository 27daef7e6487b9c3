-- ===== src/Verifier/Orchestrator/Lab.antt =====
-- The lab as the client meets it: the virtual device behind the two gateways on their ports. The
-- policy of the gateway on the patched port is an argument.
use fixrepro.Base.{ℕ, ◌==◌, nat_eq, true, none, some, Bytes, [], if◌then◌else◌}
use fixrepro.Core.Errors.{Result, ok, raise}
use fixrepro.Core.Primitives.{Primitives}
use fixrepro.Core.Models.{state_valid, when}
use fixrepro.Core.Evaluation.{vulnerable, patched, PolicyResult, evaluate_vulnerable_policy}
use fixrepro.Core.DeviceClient.{response}
use fixrepro.Core.Gateway.{GatewayResponse, process_gateway_update}
use fixrepro.Core.Gateway.Safety.{device_endpoint}
use fixrepro.Device
use fixrepro.Device.{VirtualDevice}
use fixrepro.Verifier.Orchestrator.{Client, GatewayReply, unreachable, reply}

-- `JSONResponse(status_code=status, content=response.model_dump(mode="json"))`; an exception that
-- escapes the handler is a 500 with no document.
unfoldable pub http_answer : (GatewayResponse → Bytes) → Result (ℕ × GatewayResponse) → GatewayReply
http_answer dump (ok (status, sent)) = reply status (dump sent) (some sent)
http_answer dump (raise e) = reply 500 [] none

module _ (prim : Primitives) (dump : GatewayResponse → Bytes)
    (patched_policy : Bytes → Result PolicyResult) where
  unfoldable pub serve_update : ℕ → Bytes → VirtualDevice → GatewayReply × VirtualDevice
  serve_update port raw d =
      if port == 8101
      then (let (sent, d') =
            process_gateway_update device_endpoint raw vulnerable (evaluate_vulnerable_policy prim)
              d in
          (http_answer dump sent, d'))
      else if port == 8102
      then (let (sent, d') = process_gateway_update device_endpoint raw patched patched_policy d in
          (http_answer dump sent, d'))
      else (unreachable, d)

  unfoldable pub lab : Client VirtualDevice
  lab = record {
    post_reset = λ d. let (s, d') = Device.reset d in (response 200 (when (state_valid s) s), d');
    get_state = λ d. let (s, d') = Device.state d in (response 200 (when (state_valid s) s), d');
    poll = λ d. (true, d);
    post_update = serve_update;
  }
