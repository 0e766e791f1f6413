-- ===== src/Service/Tests.antt =====
-- Tests of the services, and the theorems at inputs that meet their hypotheses.
use natt.Prelude.{
  ◌≡◌, refl, true, none, some, [], ◌∷◌, arith, ◌==◌, if◌then◌else◌, replicate, Text, txt, text_eq,
  lookup,
}
use natt.Prelude.Int.{pos}
use natt.Inet.Dotted.{dotted}
use natt.Ws.Device.{Device}
use natt.Address.{ok, throws}
use natt.Json.Plain.{plain}
use natt.Auth.Jwt.{JwtConfig, generate_token}
use natt.Ipam.{Allocator}
use natt.Data.{DeviceRow, Network, Db, opened, c_str, find_row}
use natt.Data.Users.{create_user, find_by_username}
use natt.Data.Devices.{TextArray, named}
use natt.Data.Networks.{find_network_by_id}
use natt.Service.Password.{
  bytes_to_hex, derive, hash_password, verify_password, salt_byte, read_salt,
}
use natt.Service.Password.Laws.{verify_password-hash_password}
use natt.Service.Users.{register_user, login}
use natt.Service.Users.Laws.{login-register_user}
use natt.Ws.Session.{created, set_device_info}
use natt.Service.Peers.{PeerManager, get_session, handle_connect_peer}
use natt.Service.Peers.Calls.{Connected, handle_connect_peer-Connected}
use natt.Service.Networks.{leave_network}
use natt.Service.Networks.Leaves.{Left, leave_network-Left}

abbrev some_salt : Text
some_salt = 222 ∷ replicate 15 7

abbrev some_stack : Text
some_stack = replicate 16 1

verify_password-hash_password_example :
    verify_password (txt "secret") (hash_password some_salt some_stack (txt "secret"))
    ≡ text_eq
        (bytes_to_hex (derive (txt "secret") some_salt))
        (bytes_to_hex (derive (txt "secret") some_salt))
verify_password-hash_password_example =
    verify_password-hash_password some_salt some_stack (txt "secret") (txt "secret") (ground arith)
      refl

-- A sign and white space are read as `strtol` reads them.
salt_byte_run :
    (salt_byte 100 101 ≡ 222)
    × (salt_byte 32 55 ≡ 7)
    × (salt_byte 45 49 ≡ 255)
    × (read_salt 2 (txt "0") ≡ 0 ∷ 0 ∷ [])
unfolding salt_byte read_salt
salt_byte_run = (refl, refl, refl, refl)

registers : (register_user (txt "1") some_salt some_stack (txt "ann") (txt "secret") opened).1 ≡ []
unfolding register_user create_user find_by_username find_row opened
registers = refl

abbrev config : JwtConfig
config = record { secret = txt "key"; expiration_hours = 24 }

login-register_user_example :
    login plain config 100 100
      (txt "ann")
      (txt "secret")
      (register_user (txt "1") some_salt some_stack (txt "ann") (txt "secret") opened).0
    ≡ (if text_eq
          (bytes_to_hex (derive (txt "secret") some_salt))
          (bytes_to_hex (derive (txt "secret") some_salt))
        then elim (generate_token plain config 100 100 (pos 1) (txt "ann")) [
          | none ↦ throws
          | some token ↦ ok (some (record { user_id = pos 1; username = txt "ann"; token = token }))
        ]
        else ok none)
unfolding opened c_str
login-register_user_example =
    login-register_user (txt "1") some_salt some_stack (txt "ann") (txt "secret") opened plain
      config 100 100 (txt "secret") (ground arith) refl registers

abbrev no_texts : TextArray
no_texts = record { dump_array = λ _. txt "[]"; parse_array = λ _. some [] }

-- A laptop in the network home, with an address.
abbrev laptop : DeviceRow
laptop = record {
  id = 4;
  node_id = txt "laptop";
  user_id = 1;
  device_name = txt "Laptop";
  public_key = [];
  public_ip = [];
  public_port = pos 0;
  lan_ips = txt "[]";
  virtual_ip = txt "10.0.0.2";
  online = true;
  last_heartbeat = none;
  created_at = [];
  updated_at = [];
}

abbrev home : Network
home = record {
  id = 1;
  name = txt "home";
  owner_id = 1;
  subnet = txt "10.0.0.0/24";
  created_at = [];
  updated_at = [];
}

abbrev small : Db
small = record opened {
  devices = laptop ∷ [];
  networks = home ∷ [];
  members = record { network_id = 1; device_id = 4; joined_at = [] } ∷ [];
}

abbrev apart : Db
apart = record small { members = [] }

abbrev pools : Allocator
pools =
    (
      txt "home",
      record {
        base_addr = 167772160;
        start_addr = 167772162;
        end_addr = 167772414;
        prefix = 24;
        allocated = 167772162 ∷ [];
      },
    )
    ∷ []

works : small.works ≡ true
unfolding opened
works = refl

found : find_row (named (txt "laptop")) small.devices ≡ some laptop
unfolding find_row text_eq c_str
found = refl

home_is_there : find_network_by_id 1 small ≡ some home
unfolding find_network_by_id find_row opened
home_is_there = refl

leave_network-Left_example :
    Left dotted 1
      (txt "laptop")
      laptop
      small
      home
      1
      9
      (leave_network dotted no_texts (txt "2") 1 (txt "laptop") small pools)
leave_network-Left_example =
    leave_network-Left dotted no_texts (txt "2") 1 (txt "laptop") laptop small pools works found
      home 1 9 home_is_there refl

abbrev phone : Device
phone = record {
  id = pos 5;
  node_id = txt "phone";
  user_id = pos 1;
  device_name = txt "Phone";
  public_key = [];
  public_ip = [];
  public_port = pos 0;
  lan_ips = [];
  virtual_ip = [];
  online = true;
  last_heartbeat = [];
  created_at = [];
  updated_at = [];
}

-- Two sessions, of a phone that has shown itself and of a node that has not.
abbrev online : PeerManager
online = record {
  sessions = (txt "phone", 0) ∷ (txt "laptop", 1) ∷ [];
  store = λ q. if q == 0 then set_device_info phone (created 7) else created 7;
}

no_info_run :
    (handle_connect_peer (λ _. txt "json") (txt "phone") (txt "laptop") online).1
    ≡ txt "Target device info not available"
unfolding handle_connect_peer get_session lookup text_eq created set_device_info
no_info_run = refl

handle_connect_peer-Connected_example :
    Connected
      (λ _. txt "json")
      (txt "phone")
      (txt "phone")
      online
      (handle_connect_peer (λ _. txt "json") (txt "phone") (txt "phone") online)
handle_connect_peer-Connected_example =
    handle_connect_peer-Connected (λ _. txt "json") (txt "phone") (txt "phone") online
