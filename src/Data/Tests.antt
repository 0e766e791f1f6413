-- ===== src/Data/Tests.antt =====
-- Tests of the tables of src/repository.
use natt.Prelude.{arith, ◌≡◌, refl, true, false, some, List, [], ◌∷◌, length, Text, txt, text_eq}
use natt.Prelude.Int.{pos}
use natt.Ws.Device.{Device}
use natt.Data.{Db, opened, c_str, find_row, update_rows}
use natt.Data.Users.{create_user}
use natt.Data.Devices.{TextArray, create_device, update_device, update_heartbeat, remove_device_row}
use natt.Data.Networks.{create_network, remove_network, add_device, is_device_in_network}
use natt.Data.Keys.{Gone, Later}
use natt.Data.Sound.{IsSound, opened-IsSound}
use natt.Data.Histories.{
  Statement, user_created, device_created, heard, device_removed, network_created, network_removed,
  device_added, execute, execute_all, execute_all-IsSound,
}

-- The text `[]` for every list.
abbrev no_texts : TextArray
no_texts = record { dump_array = λ _. txt "[]"; parse_array = λ _. some [] }

abbrev laptop : Device
laptop = record {
  id = pos 0;
  node_id = txt "laptop";
  user_id = pos 0;
  device_name = txt "Laptop";
  public_key = [];
  public_ip = [];
  public_port = pos 0;
  lan_ips = [];
  virtual_ip = [];
  online = false;
  last_heartbeat = [];
  created_at = [];
  updated_at = [];
}

abbrev filled : List (Text × Statement)
filled =
    (txt "1", user_created (txt "ann") (txt "hash"))
    ∷ (txt "2", user_created (txt "ann") (txt "other"))
    ∷ (txt "3", device_created 1 laptop)
    ∷ (txt "4", device_created 7 laptop)
    ∷ (txt "5", network_created (txt "home") 1)
    ∷ (txt "6", device_added 1 1)
    ∷ (txt "7", device_added 1 1)
    ∷ (txt "8", heard (txt "laptop"))
    ∷ []

-- The second user, the second device and the second membership are refused.
filled_run :
    (length (execute_all no_texts filled opened).users ≡ 1)
    × (length (execute_all no_texts filled opened).devices ≡ 1)
    × (length (execute_all no_texts filled opened).members ≡ 1)
    × (is_device_in_network 1 1 (execute_all no_texts filled opened) ≡ true)
unfolding execute_all execute opened create_user create_device create_network add_device
    update_heartbeat update_device is_device_in_network c_str find_row update_rows text_eq
filled_run = (refl, refl, refl, refl)

-- A device takes its memberships with it.
removed_run :
    (length
        (execute no_texts
          (txt "9")
          (device_removed (txt "laptop"))
          (execute_all no_texts filled opened)).members
      ≡ 0)
unfolding execute_all execute opened create_user create_device create_network add_device
    update_heartbeat update_device remove_device_row c_str find_row update_rows text_eq
removed_run = refl

abbrev filled_once : List (Text × Statement)
filled_once =
    (txt "1", user_created (txt "bob") (txt "hash"))
    ∷ (txt "2", network_created (txt "home") 1)
    ∷ (txt "3", network_removed 1)
    ∷ []

nothing_yet : Gone 0 0 0 opened
unfolding opened find_row
nothing_yet = (ground arith, refl, ground arith, refl, ground arith, refl)

-- A network that was made and removed.
abbrev emptied : Db
emptied = execute_all no_texts filled_once opened

nothing_left : Gone 0 0 1 emptied
unfolding execute_all execute opened create_user create_network remove_network find_row
nothing_left = (ground arith, refl, ground arith, refl, ground arith, refl)

emptied-IsSound : IsSound emptied
emptied-IsSound =
    (execute_all-IsSound no_texts 0 0 0 filled_once opened opened-IsSound nothing_yet).0

execute_all-IsSound_example :
    IsSound (execute_all no_texts filled emptied)
    × Gone 0 0 1 (execute_all no_texts filled emptied)
    × Later emptied (execute_all no_texts filled emptied)
execute_all-IsSound_example =
    execute_all-IsSound no_texts 0 0 1 filled emptied emptied-IsSound nothing_left
