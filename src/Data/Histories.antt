-- ===== src/Data/Histories.antt =====
-- The keys of the tables over every sequence of statements of src/repository.
use natt.Prelude.{arith, ℕ, ◌≡◌, refl, ap, ◌∙◌, Bool, List, [], ◌∷◌, Text}
use natt.Ws.Device.{Device}
use natt.Data.{DeviceRow, Db, has_user}
use natt.Data.Sound.{IsSound}
use natt.Data.Keys.{
  Gone, Later, create_user-Kept, create_device-Kept, create_network-Kept, update_device-Kept,
  update_identity-Kept, remove_device_row-Kept, add_device-Kept, remove_member_row-Kept,
  update_subnet-Kept, remove_network-Kept,
}
use natt.Data.Sound.{create_user-IsSound, create_device-IsSound}
use natt.Data.Statements.{update_device-IsSound, update_identity-IsSound, remove_device_row-IsSound}
use natt.Data.Devices.{
  update_virtual_ip, update_connection_info, update_online_status, update_heartbeat,
}
use natt.Prelude.Int.{ℤ}
use natt.Data.Users.{create_user}
use natt.Data.Devices.{TextArray, create_device, update_device, update_identity, remove_device_row}
use natt.Data.Networks.{
  create_network, add_device, remove_member_row, update_subnet, remove_network,
}
use natt.Data.Links.{
  create_network-IsSound, add_device-IsSound, remove_member_row-IsSound, update_subnet-IsSound,
  remove_network-IsSound,
}

-- A call of a repository that changes the tables, and `datetime('now')` at it.
pub data Statement : Type 0 where
  user_created : Text → Text → Statement
  device_created : ℕ → Device → Statement
  virtual_ip_set : Text → Text → Statement
  identity_set : Text → Text → Text → ℕ → Statement
  connection_set : Text → Text → ℤ → Text → Statement
  online_set : Text → Bool → Statement
  heard : Text → Statement
  device_removed : Text → Statement
  network_created : Text → ℕ → Statement
  device_added : ℕ → ℕ → Statement
  member_removed : ℕ → ℕ → Statement
  subnet_set : ℕ → Text → Statement
  network_removed : ℕ → Statement

module _ (arrays : TextArray) where
  unfoldable pub execute : Text → Statement → Db → Db
  execute now (user_created username password_hash) db =
      (create_user now username password_hash db).0
  execute now (device_created user_id device) db = (create_device arrays now user_id device db).0
  execute now (virtual_ip_set node_id virtual_ip) db =
      (update_virtual_ip now node_id virtual_ip db).0
  execute now (identity_set node_id device_name public_key user_id) db =
      (update_identity now node_id device_name public_key user_id db).0
  execute now (connection_set node_id public_ip public_port lan_ips) db =
      (update_connection_info now node_id public_ip public_port lan_ips db).0
  execute now (online_set node_id online) db = (update_online_status now node_id online db).0
  execute now (heard node_id) db = (update_heartbeat now node_id db).0
  execute now (device_removed node_id) db = (remove_device_row node_id db).0
  execute now (network_created name owner_id) db = (create_network now name owner_id db).0
  execute now (device_added network_id device_id) db = (add_device now network_id device_id db).0
  execute now (member_removed network_id device_id) db =
      (remove_member_row network_id device_id db).0
  execute now (subnet_set network_id subnet) db = (update_subnet network_id subnet now db).0
  execute now (network_removed network_id) db = (remove_network network_id db).0

  unfoldable pub execute_all : List (Text × Statement) → Db → Db
  execute_all [] db = db
  execute_all ((now, s) ∷ rest) db = execute_all rest (execute now s db)

  -- A change of a device row by a method other than `update_identity`.
  plain_update :
      (change : DeviceRow → DeviceRow) (node_id : Text) (db : Db)
      → ((d : DeviceRow) → (change d).id ≡ d.id)
      → ((d : DeviceRow) → (change d).node_id ≡ d.node_id)
      → ((d : DeviceRow) → (change d).user_id ≡ d.user_id)
      → IsSound db
      → IsSound (update_device change node_id db).0
  plain_update change node_id db ids nodes users h =
      update_device-IsSound change node_id db ids nodes
        (λ d owned. ap (λ (i : ℕ). has_user i db.users) (users d) ∙ owned) h

  execute-IsSound : (now : Text) (s : Statement) (db : Db) → IsSound db → IsSound (execute now s db)
  unfolding execute update_virtual_ip update_connection_info update_online_status update_heartbeat
  execute-IsSound now (user_created username password_hash) db h =
      create_user-IsSound now username password_hash db h
  execute-IsSound now (device_created user_id device) db h =
      create_device-IsSound arrays now user_id device db h
  execute-IsSound now (virtual_ip_set node_id virtual_ip) db h =
      plain_update _ node_id db (λ d. refl) (λ d. refl) (λ d. refl) h
  execute-IsSound now (identity_set node_id device_name public_key user_id) db h =
      update_identity-IsSound now node_id device_name public_key user_id db h
  execute-IsSound now (connection_set node_id public_ip public_port lan_ips) db h =
      plain_update _ node_id db (λ d. refl) (λ d. refl) (λ d. refl) h
  execute-IsSound now (online_set node_id online) db h =
      plain_update _ node_id db (λ d. refl) (λ d. refl) (λ d. refl) h
  execute-IsSound now (heard node_id) db h =
      plain_update _ node_id db (λ d. refl) (λ d. refl) (λ d. refl) h
  execute-IsSound now (device_removed node_id) db h = remove_device_row-IsSound node_id db h
  execute-IsSound now (network_created name owner_id) db h =
      create_network-IsSound now name owner_id db h
  execute-IsSound now (device_added network_id device_id) db h =
      add_device-IsSound now network_id device_id db h
  execute-IsSound now (member_removed network_id device_id) db h =
      remove_member_row-IsSound network_id device_id db h
  execute-IsSound now (subnet_set network_id subnet) db h =
      update_subnet-IsSound network_id subnet now db h
  execute-IsSound now (network_removed network_id) db h = remove_network-IsSound network_id db h

  execute-Kept :
      (user device network : ℕ) (now : Text) (s : Statement) (db : Db)
      → Gone user device network db
      → Gone user device network (execute now s db) × Later db (execute now s db)
  unfolding execute update_virtual_ip update_connection_info update_online_status update_heartbeat
  execute-Kept i j k now (user_created username password_hash) db h =
      create_user-Kept i j k db h now username password_hash
  execute-Kept i j k now (device_created user_id device) db h =
      create_device-Kept i j k db h arrays now user_id device
  execute-Kept i j k now (virtual_ip_set node_id virtual_ip) db h =
      update_device-Kept i j k db h _ node_id (λ d. refl)
  execute-Kept i j k now (identity_set node_id device_name public_key user_id) db h =
      update_identity-Kept i j k db h now node_id device_name public_key user_id
  execute-Kept i j k now (connection_set node_id public_ip public_port lan_ips) db h =
      update_device-Kept i j k db h _ node_id (λ d. refl)
  execute-Kept i j k now (online_set node_id online) db h =
      update_device-Kept i j k db h _ node_id (λ d. refl)
  execute-Kept i j k now (heard node_id) db h = update_device-Kept i j k db h _ node_id (λ d. refl)
  execute-Kept i j k now (device_removed node_id) db h = remove_device_row-Kept i j k db h node_id
  execute-Kept i j k now (network_created name owner_id) db h =
      create_network-Kept i j k db h now name owner_id
  execute-Kept i j k now (device_added network_id device_id) db h =
      add_device-Kept i j k db h now network_id device_id
  execute-Kept i j k now (member_removed network_id device_id) db h =
      remove_member_row-Kept i j k db h network_id device_id
  execute-Kept i j k now (subnet_set network_id subnet) db h =
      update_subnet-Kept i j k db h network_id subnet now
  execute-Kept i j k now (network_removed network_id) db h =
      remove_network-Kept i j k db h network_id

  -- Every sequence of statements of the repositories keeps the tables sound: names, node ids and
  -- memberships are unique, ids count up, every device and network has an owner in the table of users, and
  -- every membership a network and a device. The last keys never go back, and a key of a user, a device or
  -- a network that was given before and has no row is not given again.
  pub execute_all-IsSound :
      (user device network : ℕ) (statements : List (Text × Statement)) (db : Db)
      → IsSound db
      → Gone user device network db
      → IsSound (execute_all statements db)
        × Gone user device network (execute_all statements db)
        × Later db (execute_all statements db)
  unfolding execute_all
  execute_all-IsSound i j k [] db h g = (h, g, (omega arith, omega arith, omega arith))
  execute_all-IsSound i j k ((now, s) ∷ rest) db h g =
      let (gone, later) = execute-Kept i j k now s db g in
      let (sound, gone', later') =
        execute_all-IsSound i j k rest (execute now s db) (execute-IsSound now s db h) gone in
      (
        sound,
        gone',
        (
          omega (arith, later.0, later'.0),
          omega (arith, later.1, later'.1),
          omega (arith, later.2, later'.2),
        ),
      )
