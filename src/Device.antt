-- ===== src/Device.antt =====
-- device/state.py and device/app.py: the virtual device. Each method holds the lock for its whole
-- body, so a history is a sequence of whole operations.
pub mod History
use fixrepro.Base.{ℕ, ◌+◌, String, Option, none, some, List, [], ◌∷◌}
use fixrepro.Core.Models.{DeviceState, DeviceApplyRequest}

abbrev pub initial_firmware_version : String
initial_firmware_version = "1.0.0"

pub record VirtualDevice : Type 0 where
  pub firmware_version : String
  pub update_counter : ℕ
  pub last_payload_sha256 : Option String

abbrev pub init : VirtualDevice
init = record {
  firmware_version = initial_firmware_version;
  update_counter = 0;
  last_payload_sha256 = none;
}

unfoldable pub snapshot : VirtualDevice → DeviceState
snapshot d = record {
  firmware_version = d.firmware_version;
  update_counter = d.update_counter;
  last_payload_sha256 = d.last_payload_sha256;
}

-- A method returns its response and the device after it.
unfoldable pub state : VirtualDevice → DeviceState × VirtualDevice
state d = (snapshot d, d)

unfoldable pub reset : VirtualDevice → DeviceState × VirtualDevice
reset d =
    let d' : VirtualDevice = record {
      firmware_version = initial_firmware_version;
      update_counter = 0;
      last_payload_sha256 = none;
    } in
    (snapshot d', d')

unfoldable pub apply : DeviceApplyRequest → VirtualDevice → DeviceState × VirtualDevice
apply r d =
    let d' : VirtualDevice = record {
      firmware_version = r.firmware_version;
      update_counter = d.update_counter + 1;
      last_payload_sha256 = some r.payload_sha256;
    } in
    (snapshot d', d')

-- The three state routes of device/app.py.
pub data Operation : Type 0 where
  get_state reset_device : Operation
  apply_update : DeviceApplyRequest → Operation

unfoldable pub serve : Operation → VirtualDevice → DeviceState × VirtualDevice
unfolding state reset apply
serve get_state d = state d
serve reset_device d = reset d
serve (apply_update r) d = apply r d

-- The device after a history of requests, in the order in which they take the lock.
unfoldable pub serve_all : List Operation → VirtualDevice → VirtualDevice
serve_all [] d = d
serve_all (op ∷ ops) d = serve_all ops (serve op d).1
