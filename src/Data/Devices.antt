-- ===== src/Data/Devices.antt =====
-- src/repository/device_repo.cpp. The JSON text of a list of addresses is a parameter.
use natt.Prelude.{
  ℕ, ◌+◌, Bool, true, false, not, ◌&&◌, ◌||◌, Option, none, some, List, [], ◌∷◌, ◌++◌, map, ◌==◌,
  if◌then◌else◌, is_some, keep_if, Text, text_eq,
}
use natt.Prelude.Int.{ℤ, pos}
use natt.Ws.Device.{Device}
use natt.Data.{DeviceRow, Member, Db, c_str, find_row, update_rows, has_user}

-- `nlohmann::json(texts).dump()`, and `json::parse(s).get<std::vector<std::string>>()`, which throws where
-- there is none.
pub record TextArray : Type 0 where
  pub dump_array : List Text → Text
  pub parse_array : Text → Option (List Text)

abbrev pub named : Text → DeviceRow → Bool
named node_id d = text_eq d.node_id (c_str node_id)

module _ (arrays : TextArray) where
  -- The columns of a row as a `Device`.
  unfoldable pub read_device : DeviceRow → Device
  read_device d = record {
    id = pos d.id;
    node_id = d.node_id;
    user_id = pos d.user_id;
    device_name = d.device_name;
    public_key = d.public_key;
    public_ip = d.public_ip;
    public_port = d.public_port;
    lan_ips = (elim (arrays.parse_array d.lan_ips) [ none ↦ [] | some ips ↦ ips ]);
    virtual_ip = d.virtual_ip;
    online = d.online;
    last_heartbeat = (elim d.last_heartbeat [ none ↦ [] | some time ↦ time ]);
    created_at = d.created_at;
    updated_at = d.updated_at;
  }

  -- `DeviceRepo::create` of a device with this id of its user. It fails where the node id is taken and
  -- where there is no such user.
  unfoldable pub create_device : Text → ℕ → Device → Db → Db × Bool
  create_device now user_id device db =
      if not db.works
        || is_some (find_row (named device.node_id) db.devices)
        || not (has_user user_id db.users)
      then (db, false)
      else (
        record db {
          devices =
              db.devices
              ++ record {
                id = db.device_seq + 1;
                node_id = c_str device.node_id;
                user_id = user_id;
                device_name = c_str device.device_name;
                public_key = c_str device.public_key;
                public_ip = c_str device.public_ip;
                public_port = device.public_port;
                lan_ips = c_str (arrays.dump_array device.lan_ips);
                virtual_ip = [];
                online = false;
                last_heartbeat = none;
                created_at = now;
                updated_at = now;
              }
                ∷ [];
          device_seq = db.device_seq + 1;
        },
        true,
      )

  unfoldable pub find_by_node_id : Text → Db → Option Device
  find_by_node_id node_id db =
      if not db.works then none else elim (find_row (named node_id) db.devices) [
        | none ↦ none
        | some d ↦ some (read_device d)
      ]

  unfoldable pub find_by_user_id : ℕ → Db → List Device
  find_by_user_id user_id db =
      if db.works
      then map read_device (keep_if (λ (d : DeviceRow). d.user_id == user_id) db.devices)
      else []

  -- `older` says that more than the given seconds have passed since a heartbeat, by `julianday`.
  unfoldable pub find_offline_timeout : (Text → ℤ → Bool) → ℤ → Db → List Device
  find_offline_timeout older timeout_sec db =
      if db.works
      then (map read_device (
          keep_if
            (λ (d : DeviceRow).
              d.online
              && elim d.last_heartbeat [ none ↦ false | some time ↦ older time timeout_sec ])
            db.devices))
      else []

-- An UPDATE of the row with this node id, which succeeds also where there is none.
unfoldable pub update_device : (DeviceRow → DeviceRow) → Text → Db → Db × Bool
update_device change node_id db =
    if db.works
    then (record db { devices = update_rows (named node_id) change db.devices }, true)
    else (db, false)

unfoldable pub update_virtual_ip : Text → Text → Text → Db → Db × Bool
update_virtual_ip now node_id virtual_ip db =
    update_device (λ (d : DeviceRow). record d { virtual_ip = c_str virtual_ip; updated_at = now })
      node_id db

-- The foreign key is looked at where a row is changed.
unfoldable pub update_identity : Text → Text → Text → Text → ℕ → Db → Db × Bool
update_identity now node_id device_name public_key user_id db =
    if is_some (find_row (named node_id) db.devices) && not (has_user user_id db.users)
    then (db, false)
    else update_device
        (λ (d : DeviceRow). record d {
          user_id = user_id;
          device_name = c_str device_name;
          public_key = c_str public_key;
          updated_at = now;
        })
        node_id db

unfoldable pub update_connection_info : Text → Text → Text → ℤ → Text → Db → Db × Bool
update_connection_info now node_id public_ip public_port lan_ips_json db =
    update_device
      (λ (d : DeviceRow). record d {
        public_ip = c_str public_ip;
        public_port = public_port;
        lan_ips = c_str lan_ips_json;
        updated_at = now;
      })
      node_id db

unfoldable pub update_online_status : Text → Text → Bool → Db → Db × Bool
update_online_status now node_id online db =
    update_device (λ (d : DeviceRow). record d { online = online; updated_at = now }) node_id db

unfoldable pub update_heartbeat : Text → Text → Db → Db × Bool
update_heartbeat now node_id db =
    update_device
      (λ (d : DeviceRow). record d { online = true; last_heartbeat = some now; updated_at = now })
      node_id db

-- The memberships of the device go with it: ON DELETE CASCADE.
unfoldable pub remove_device_row : Text → Db → Db × Bool
remove_device_row node_id db =
    if not db.works then (db, false) else elim (find_row (named node_id) db.devices) [
      | none ↦ (db, true)
      | some row ↦ (
        record db {
          devices = keep_if (λ (d : DeviceRow). not (named node_id d)) db.devices;
          members = keep_if (λ (m : Member). not (m.device_id == row.id)) db.members;
        },
        true,
      )
    ]
