-- ===== src/Device/History.antt =====
-- What a device's state says of the requests it has served.
use fixrepro.Base.{◌≡◌, ◌↔◌, refl, none, some, List, [], ◌∷◌, length, arith}
use native.Mathlib.Numerals.{add-one}
use fixrepro.Core.Models.{DeviceApplyRequest}
use fixrepro.Device.{
  initial_firmware_version, VirtualDevice, init, Operation, get_state, reset_device, apply_update,
  serve, serve_all,
}

-- The updates of a history since its last reset, oldest first, behind those already counted.
updates_from : List DeviceApplyRequest → List Operation → List DeviceApplyRequest
updates_from acc [] = acc
updates_from acc (get_state ∷ ops) = updates_from acc ops
updates_from acc (reset_device ∷ ops) = updates_from [] ops
updates_from acc (apply_update r ∷ ops) = updates_from (r ∷ acc) ops

-- The updates since the last reset, the latest first.
pub updates : List Operation → List DeviceApplyRequest
unfolding updates_from
updates ops = updates_from [] ops

-- The state that a list of updates, the latest first, leaves.
abbrev pub after_updates : List DeviceApplyRequest → VirtualDevice
after_updates [] = init
after_updates (r ∷ rs) = record {
  firmware_version = r.firmware_version;
  update_counter = length (r ∷ rs);
  last_payload_sha256 = some r.payload_sha256;
}

serve_all-updates :
    (ops : List Operation) (acc : List DeviceApplyRequest)
    → serve_all ops (after_updates acc) ≡ after_updates (updates_from acc ops)
unfolding serve_all serve updates_from
serve_all-updates [] acc = refl
serve_all-updates (get_state ∷ ops) acc = serve_all-updates ops acc
serve_all-updates (reset_device ∷ ops) acc = serve_all-updates ops []
serve_all-updates (apply_update r ∷ ops) [] = serve_all-updates ops (r ∷ [])
serve_all-updates (apply_update r ∷ ops) (q ∷ acc) =
    rw (add-one) (serve_all-updates ops (r ∷ q ∷ acc))

-- After any history of requests the device shows the last update since the last reset and the number
-- of updates since then, and the initial state if there was none.
pub history_determines : (ops : List Operation) → serve_all ops init ≡ after_updates (updates ops)
unfolding updates
history_determines ops = serve_all-updates ops []

-- At any time in any history: the counter is 0 exactly if no payload is recorded, and the firmware
-- is then the initial one.
pub counter_zero_iff :
    (ops : List Operation)
    → let d = serve_all ops init in
      ((d.update_counter ≡ 0) ↔ (d.last_payload_sha256 ≡ none))
      × (d.update_counter ≡ 0 → d.firmware_version ≡ initial_firmware_version)
counter_zero_iff ops = rw (history_determines ops) (by_updates (updates ops))
  where
    by_updates :
        (rs : List DeviceApplyRequest)
        → let d = after_updates rs in
          ((d.update_counter ≡ 0) ↔ (d.last_payload_sha256 ≡ none))
          × (d.update_counter ≡ 0 → d.firmware_version ≡ initial_firmware_version)
    by_updates [] = ground arith
    by_updates (r ∷ rs) = ground arith
