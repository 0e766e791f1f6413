-- ===== src/Data/Networks.antt =====
-- src/repository/network_repo.cpp.
use natt.Prelude.{
  ℕ, ◌+◌, Bool, true, false, not, ◌&&◌, ◌||◌, Option, none, some, List, [], ◌∷◌, ◌++◌, ◌==◌,
  if◌then◌else◌, is_some, keep_if, Text, txt,
}
use natt.Ws.Device.{Device}
use natt.Data.{
  DeviceRow, Network, Member, Db, c_str, find_row, update_rows, has_user, has_device, has_network,
}
use natt.Data.Devices.{TextArray, read_device}

-- Fails where there is no such owner.
unfoldable pub create_network : Text → Text → ℕ → Db → Db × Bool
create_network now name owner_id db =
    if not db.works || not (has_user owner_id db.users) then (db, false) else (
      record db {
        networks =
            db.networks
            ++ record {
              id = db.network_seq + 1;
              name = c_str name;
              owner_id = owner_id;
              subnet = txt "10.0.0.0/24";
              created_at = now;
              updated_at = now;
            }
              ∷ [];
        network_seq = db.network_seq + 1;
      },
      true,
    )

unfoldable pub find_network_by_id : ℕ → Db → Option Network
find_network_by_id id db =
    if db.works then find_row (λ (n : Network). n.id == id) db.networks else none

unfoldable pub find_by_owner : ℕ → Db → List Network
find_by_owner owner_id db =
    if db.works then keep_if (λ (n : Network). n.owner_id == owner_id) db.networks else []

abbrev pub is_pair : ℕ → ℕ → Member → Bool
is_pair network_id device_id m = m.network_id == network_id && m.device_id == device_id

-- INSERT OR IGNORE: a pair that is there stays; a key that is not there is an error all the same.
unfoldable pub add_device : Text → ℕ → ℕ → Db → Db × Bool
add_device now network_id device_id db =
    if not db.works
    then (db, false)
    else if is_some (find_row (is_pair network_id device_id) db.members)
    then (db, true)
    else if not (has_network network_id db.networks) || not (has_device device_id db.devices)
    then (db, false)
    else (
      record db {
        members =
            db.members
            ++ record { network_id = network_id; device_id = device_id; joined_at = now } ∷ [];
      },
      true,
    )

unfoldable pub remove_member_row : ℕ → ℕ → Db → Db × Bool
remove_member_row network_id device_id db =
    if db.works
    then (
      record db {
        members = keep_if (λ (m : Member). not (is_pair network_id device_id m)) db.members;
      },
      true,
    )
    else (db, false)

-- The join of `devices` and `network_devices`, in the order of the memberships.
unfoldable pub joined : TextArray → List Member → List DeviceRow → List Device
joined arrays [] devices = []
joined arrays (m ∷ members) devices =
    let rest = joined arrays members devices in
    elim (find_row (λ (d : DeviceRow). d.id == m.device_id) devices) [
      | none ↦ rest
      | some d ↦ read_device arrays d ∷ rest
    ]

unfoldable pub get_network_devices : TextArray → ℕ → Db → List Device
get_network_devices arrays network_id db =
    if db.works
    then joined arrays (keep_if (λ (m : Member). m.network_id == network_id) db.members) db.devices
    else []

unfoldable pub is_device_in_network : ℕ → ℕ → Db → Bool
is_device_in_network network_id device_id db =
    db.works && is_some (find_row (is_pair network_id device_id) db.members)

unfoldable pub update_subnet : ℕ → Text → Text → Db → Db × Bool
update_subnet network_id subnet now db =
    if db.works
    then (
      record db {
        networks =
            update_rows (λ (n : Network). n.id == network_id)
              (λ (n : Network). record n { subnet = c_str subnet; updated_at = now }) db.networks;
      },
      true,
    )
    else (db, false)

-- The memberships go with the network: ON DELETE CASCADE.
unfoldable pub remove_network : ℕ → Db → Db × Bool
remove_network network_id db =
    if db.works
    then (
      record db {
        networks = keep_if (λ (n : Network). not (n.id == network_id)) db.networks;
        members = keep_if (λ (m : Member). not (m.network_id == network_id)) db.members;
      },
      true,
    )
    else (db, false)
