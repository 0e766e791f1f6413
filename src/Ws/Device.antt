-- ===== src/Ws/Device.antt =====
-- src/model/device.h: a device as the database and the sessions hold it, and its JSON views.
use natt.Prelude.{Bool, List, Text, txt}
use natt.Prelude.Int.{ℤ}
use natt.Json.Values.{Value, string, number, boolean, array, object, end, field, strings}

pub record Device : Type 0 where
  pub id : ℤ
  pub node_id : Text
  pub user_id : ℤ
  pub device_name : Text
  pub public_key : Text
  pub public_ip : Text
  pub public_port : ℤ
  pub lan_ips : List Text
  pub virtual_ip : Text
  pub online : Bool
  pub last_heartbeat : Text
  pub created_at : Text
  pub updated_at : Text

unfoldable pub to_json : Device → Value
to_json d = object (
    field (txt "node_id") (string d.node_id) (
      field (txt "owner_user_id") (number d.user_id) (
        field (txt "device_name") (string d.device_name) (
          field (txt "public_key") (string d.public_key) (
            field (txt "public_ip") (string d.public_ip) (
              field (txt "public_port") (number d.public_port) (
                field (txt "lan_ips") (array (strings d.lan_ips)) (
                  field (txt "virtual_ip") (string d.virtual_ip) (
                    field (txt "online") (boolean d.online) (
                      field (txt "last_heartbeat") (string d.last_heartbeat) (
                        field (txt "created_at") (string d.created_at)
                          (field (txt "updated_at") (string d.updated_at) end))))))))))))

unfoldable pub to_peer_json : Device → Value
to_peer_json d = object (
    field (txt "node_id") (string d.node_id) (
      field (txt "device_name") (string d.device_name) (
        field (txt "public_key") (string d.public_key) (
          field (txt "public_ip") (string d.public_ip) (
            field (txt "public_port") (number d.public_port) (
              field (txt "lan_ips") (array (strings d.lan_ips)) (
                field (txt "virtual_ip") (string d.virtual_ip)
                  (field (txt "online") (boolean d.online) end))))))))
