-- ===== src/Tests/Device.antt =====
-- Witnesses of the device and the configuration.
use fixrepro.Base.{◌≡◌, List, [], ◌∷◌}
use fixrepro.Device.{Operation, get_state, reset_device, apply_update, init, serve_all}
use fixrepro.Device.History.{updates, after_updates, history_determines}

abbrev history : List Operation
history =
    apply_update (record { firmware_version = "9.9.0-test"; payload_sha256 = "aa" })
    ∷ reset_device
    ∷ get_state
    ∷ apply_update (record { firmware_version = "1.1.0"; payload_sha256 = "bb" })
    ∷ []

history_determines_example : serve_all history init ≡ after_updates (updates history)
history_determines_example = history_determines history
