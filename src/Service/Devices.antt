-- ===== src/Service/Devices.antt =====
-- `DeviceService` of src/service/device_service.cpp. The empty text is success, `now` is the clock of the
-- database, and `uuid` what `generate_uuid` gives.
use natt.Prelude.{
  ℕ, Bool, false, not, Option, none, some, List, [], ◌==◌, if◌then◌else◌, is_empty, Text, txt,
}
use natt.Prelude.Int.{ℤ, pos, negsuc}
use natt.Ws.Device.{Device}
use natt.Data.{Db}
use natt.Data.Devices.{
  TextArray, create_device, find_by_node_id, find_by_user_id, update_virtual_ip, update_identity,
  update_connection_info, update_online_status, update_heartbeat, remove_device_row,
}

-- A `Device` with these members set and the defaults of src/model/device.h.
abbrev pub fresh_device : Text → ℕ → Text → Text → Device
fresh_device node_id user_id device_name public_key = record {
  id = pos 0;
  node_id = node_id;
  user_id = pos user_id;
  device_name = device_name;
  public_key = public_key;
  public_ip = [];
  public_port = pos 0;
  lan_ips = [];
  virtual_ip = [];
  online = false;
  last_heartbeat = [];
  created_at = [];
  updated_at = [];
}

abbrev pub or_else : Text → Text → Text
or_else s default = if is_empty s then default else s

abbrev pub is_id : ℤ → ℕ → Bool
is_id (pos n) m = n == m
is_id (negsuc n) m = false

module _ (arrays : TextArray) where
  -- The error and the node id.
  unfoldable pub add_user_device : Text → Text → ℕ → Text → Text → Db → Db × Text × Text
  add_user_device now uuid user_id device_name public_key db =
      if is_empty device_name
      then (db, txt "Device name is required", [])
      else (let (after, created) =
            create_device arrays now user_id (fresh_device uuid user_id device_name public_key)
              db in
          if created then (after, [], uuid) else (after, txt "Failed to create device", []))

  unfoldable pub get_device : Text → Db → Option Device
  get_device node_id db = find_by_node_id arrays node_id db

  unfoldable pub list_user_devices : ℕ → Db → List Device
  list_user_devices user_id db = find_by_user_id arrays user_id db

  unfoldable pub ensure_device_for_user : Text → Text → ℕ → Text → Text → Db → Db × Text
  ensure_device_for_user now node_id user_id device_name public_key db =
      elim (find_by_node_id arrays node_id db) [
        | none ↦
            let (after, created) =
              create_device arrays now user_id
                (fresh_device node_id user_id (or_else device_name node_id) public_key) db in
            (after, if created then [] else txt "Failed to create device")
        | some existing ↦
            let (after, updated) =
              update_identity now node_id (or_else device_name existing.device_name)
                (or_else public_key existing.public_key) user_id db in
            (after, if updated then [] else txt "Failed to update device identity")
      ]

  unfoldable pub delete_device : Text → ℕ → Db → Db × Bool
  delete_device node_id user_id db = elim (find_by_node_id arrays node_id db) [
    | none ↦ (db, false)
    | some device ↦
        if not (is_id device.user_id user_id) then (db, false) else remove_device_row node_id db
  ]

  unfoldable pub set_connection_info : Text → Text → Text → ℤ → List Text → Db → Db
  set_connection_info now node_id public_ip public_port lan_ips db =
      (update_connection_info now node_id public_ip public_port (arrays.dump_array lan_ips) db).0

unfoldable pub note_heartbeat : Text → Text → Db → Db
note_heartbeat now node_id db = (update_heartbeat now node_id db).0

unfoldable pub set_virtual_ip : Text → Text → Text → Db → Db
set_virtual_ip now node_id virtual_ip db = (update_virtual_ip now node_id virtual_ip db).0

unfoldable pub set_offline : Text → Text → Db → Db
set_offline now node_id db = (update_online_status now node_id false db).0
