-- ===== src/Http.antt =====
-- The parts of src/http/http_server.cpp that give a node its address and write it into the tables. The pools
-- of the configuration, the registry of nodes, the tables and the address pools are arguments.
mod Tests
use natt.Prelude.{
  ℕ, true, not, Option, none, some, [], if◌then◌else◌, is_empty, Text, txt, Dict, lookup,
}
use natt.Inet.{Inet}
use natt.Address.{Outcome, ok, and_then}
use natt.Ipam.{Allocator, add_pool, allocate, gateway_ip, get_subnet}
use natt.Nat.Nodes.{NodeInfo, Nodes, fresh_node, find_node}
use natt.Data.{Db}
use natt.Data.Devices.{TextArray}
use natt.Service.Users.{find_user_by_username}
use natt.Service.Devices.{
  ensure_device_for_user, set_virtual_ip, set_connection_info, note_heartbeat,
}
use natt.Service.Networks.{ensure_network, join_network}
use natt.Config.{AdminConfig}

unfoldable pub network_or_default : Text → Text
network_or_default network_id = if is_empty network_id then txt "default" else network_id

-- The subnet of the network in the configuration, or the default one there, or a fixed one.
unfoldable pub configured_cidr : Text → Dict Text → Text
configured_cidr network configured = elim (lookup network configured) [
  | some cidr ↦ cidr
  | none ↦ elim (lookup (txt "default") configured) [ some cidr ↦ cidr | none ↦ txt "10.0.0.0/24" ]
]

module _ (net : Inet) where
  unfoldable pub configure_pool : Dict Text → Text → Allocator → Outcome Allocator
  configure_pool configured network pools =
      if is_empty (get_subnet net network pools)
      then add_pool net network (configured_cidr network configured) [] pools
      else ok pools

  -- The address that the node has, or else a new one.
  unfoldable pub address_for : Option NodeInfo → Text → Allocator → Outcome (Allocator × Text)
  address_for none network pools = allocate net network pools
  address_for (some existing) network pools =
      let fresh = allocate net network pools in
      if not (is_empty existing.virtual_ip) then ok (pools, existing.virtual_ip) else fresh

  unfoldable pub assign_virtual_ip :
      ℕ → Dict Text → Nodes → Text → Text → Text → Allocator → Outcome (Allocator × NodeInfo)
  assign_virtual_ip now configured nodes node_id network_id public_key pools =
      let network = network_or_default network_id in
      and_then (configure_pool configured network pools) (λ (with_pool : Allocator).
        and_then (address_for (find_node node_id nodes) network with_pool)
          (λ (given : Allocator × Text). ok (
            given.0,
            record fresh_node {
              node_id = node_id;
              network_id = network;
              public_key = public_key;
              virtual_ip = given.1;
              gateway_ip = gateway_ip net network given.0;
              subnet = get_subnet net network given.0;
              online = true;
              last_seen = now;
            },
          )))

  module _ (arrays : TextArray) where
    -- The device, its network, and the membership of the one in the other; errors end it where they come.
    unfoldable pub ensure_node_auth_persisted :
        Text → AdminConfig → NodeInfo → Db → Allocator → Outcome (Db × Allocator)
    ensure_node_auth_persisted now admin info db pools =
        if not admin.enabled
        then ok (db, pools)
        else elim (find_user_by_username admin.username db) [
          | none ↦ ok (db, pools)
          | some user ↦
              let (with_device, err) =
                ensure_device_for_user arrays now info.node_id user.id info.node_id info.public_key
                  db in
              if not (is_empty err)
              then ok (with_device, pools)
              else (let known = note_heartbeat now info.node_id (
                    set_connection_info arrays now info.node_id info.public_ip info.public_port
                      info.local_addrs
                      (set_virtual_ip now info.node_id info.virtual_ip with_device)) in
                  let (with_network, network_err, network_id) =
                    ensure_network net now info.network_id user.id known pools in
                  if not (is_empty network_err)
                  then ok (with_network, pools)
                  else and_then
                      (join_network net arrays now network_id info.node_id with_network pools)
                      (λ (r : Db × Allocator × Text). ok (r.0, r.1)))
        ]
