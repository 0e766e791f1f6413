-- ===== src/Service/Networks.antt =====
-- `NetworkService` of src/service/network_service.cpp over the tables and the address pools. The empty text
-- is success, `now` is the clock of the database. `addPool` and `allocate` may end in other ways than with a
-- result: see `Outcome`.
pub mod Joins
pub mod Leaves
use natt.Prelude.{
  ℕ, not, ◌&&◌, Option, none, some, List, [], ◌∷◌, if◌then◌else◌, is_empty, keep_if, Text, txt,
  text_eq,
}
use natt.Prelude.Int.{pos_part}
use natt.Inet.{Inet}
use natt.Address.{Outcome, ok, and_then}
use natt.Ipam.{Allocator, add_pool, allocate, free, get_subnet}
use natt.Ws.Device.{Device}
use natt.Data.{Network, Db}
use natt.Data.Devices.{TextArray, find_by_node_id, update_virtual_ip}
use natt.Data.Networks.{
  create_network, find_network_by_id, find_by_owner, add_device, remove_member_row,
  get_network_devices, is_device_in_network, update_subnet,
}

-- `networks.back()`
unfoldable pub back : List Network → Option Network
back [] = none
back (n ∷ []) = some n
back (n ∷ m ∷ networks) = back (m ∷ networks)

-- The error and the id.
unfoldable pub add_network : Text → Text → ℕ → Db → Db × Text × ℕ
add_network now name owner_id db =
    if is_empty name
    then (db, txt "Network name is required", 0)
    else (let (after, created) = create_network now name owner_id db in
        if not created
        then (after, txt "Failed to create network", 0)
        else elim (back (find_by_owner owner_id after)) [
          | none ↦ (after, txt "Failed to find created network", 0)
          | some network ↦ (after, [], network.id)
        ])

unfoldable pub get_network : ℕ → Db → Option Network
get_network network_id db = find_network_by_id network_id db

-- `std::find_if` over the networks of an owner.
unfoldable pub first_named : Text → List Network → Option Network
first_named name [] = none
first_named name (n ∷ networks) = if text_eq n.name name then some n else first_named name networks

unfoldable pub find_user_network_by_name : ℕ → Text → Db → Option Network
find_user_network_by_name owner_id name db = first_named name (find_by_owner owner_id db)

unfoldable pub list_user_networks : ℕ → Db → List Network
list_user_networks owner_id db = find_by_owner owner_id db

module _ (net : Inet) where
  unfoldable pub ensure_network : Text → Text → ℕ → Db → Allocator → Db × Text × ℕ
  ensure_network now name owner_id db pools =
      let subnet = get_subnet net name pools in
      if is_empty name
      then (db, txt "Network name is required", 0)
      else elim (find_user_network_by_name owner_id name db) [
        | some existing ↦ (
          if not (is_empty subnet) && not (text_eq existing.subnet subnet)
              then (update_subnet existing.id subnet now db).0
              else db,
          [],
          existing.id,
        )
        | none ↦
            let (after, err, network_id) = add_network now name owner_id db in
            if not (is_empty err)
            then (after, err, 0)
            else if not (is_empty subnet)
            then ((update_subnet network_id subnet now after).0, [], network_id)
            else (after, [], network_id)
      ]

  -- `addPool` where the network has no pool yet.
  unfoldable pub ensure_pool : Network → Allocator → Outcome Allocator
  ensure_pool network pools =
      if is_empty (get_subnet net network.name pools)
      then add_pool net network.name network.subnet [] pools
      else ok pools

  unfoldable pub assign_ip : Text → Text → Network → Db → Allocator → Outcome (Db × Allocator)
  assign_ip now node_id network db pools =
      and_then (ensure_pool network pools) (λ (with_pool : Allocator).
        and_then (allocate net network.name with_pool) (λ (given : Allocator × Text).
          ok (
            if is_empty given.1 then db else (update_virtual_ip now node_id given.1 db).0,
            given.0,
          )))

  module _ (arrays : TextArray) where
    unfoldable pub join_network : Text → ℕ → Text → Db → Allocator → Outcome (Db × Allocator × Text)
    join_network now network_id node_id db pools = elim (find_network_by_id network_id db) [
      | none ↦ ok (db, pools, txt "Network not found")
      | some network ↦ elim (find_by_node_id arrays node_id db) [
        | none ↦ ok (db, pools, txt "Device not found")
        | some device ↦
            if is_device_in_network network_id (pos_part device.id) db
            then ok (db, pools, txt "Device already in network")
            else (let (after, added) = add_device now network_id (pos_part device.id) db in
                if not added
                then ok (after, pools, txt "Failed to add device to network")
                else if is_empty device.virtual_ip
                then and_then (assign_ip now node_id network after pools)
                    (λ (assigned : Db × Allocator). ok (assigned.0, assigned.1, []))
                else ok (after, pools, []))
      ]
    ]

    unfoldable pub leave_network : Text → ℕ → Text → Db → Allocator → Db × Allocator × Text
    leave_network now network_id node_id db pools = elim (find_by_node_id arrays node_id db) [
      | none ↦ (db, pools, txt "Device not found")
      | some device ↦
          let (after, removed) = remove_member_row network_id (pos_part device.id) db in
          if not removed
          then (after, pools, txt "Failed to remove device from network")
          else if is_empty device.virtual_ip
          then (after, pools, [])
          else (
            (update_virtual_ip now node_id [] after).0,
            elim (find_network_by_id network_id after) [
              | none ↦ pools
              | some network ↦ (free net network.name device.virtual_ip pools).0
            ],
            [],
          )
    ]

unfoldable pub devices_excluding : Text → List Device → List Device
devices_excluding exclude_node_id devices =
    keep_if (λ (d : Device). not (text_eq d.node_id exclude_node_id)) devices

unfoldable pub get_network_devices_excluding : TextArray → ℕ → Text → Db → List Device
get_network_devices_excluding arrays network_id exclude_node_id db =
    devices_excluding exclude_node_id (get_network_devices arrays network_id db)
