-- ===== src/Data/Sound.antt =====
-- What the schema of src/repository/database.cpp asks of the tables: keys, UNIQUE columns and foreign keys.
use natt.Prelude.{
  ℕ, ◌+◌, ◌≡◌, refl, Bool, true, false, not, ◌||◌, Option, none, some, List, [], arith, ◌==◌,
  if◌then◌else◌, is_some, All, Text, text_eq, eq_iff,
}
use natt.Ws.Device.{Device}
use natt.Data.{
  User, DeviceRow, Network, Member, Db, opened, c_str, find_row, has_user, has_device, has_network,
}
use natt.Data.Rows.{Apart, Rising, found-append, append-Apart, append-Rising, All-append, All-map}
use natt.Data.Users.{create_user}
use natt.Data.Devices.{TextArray, named, create_device}
use natt.Data.Networks.{is_pair}

abbrev pub same_name : User → User → Bool
same_name u v = text_eq v.username u.username

abbrev pub same_node : DeviceRow → DeviceRow → Bool
same_node d e = text_eq e.node_id d.node_id

abbrev pub same_pair : Member → Member → Bool
same_pair m = is_pair m.network_id m.device_id

abbrev pub HasOwner : List User → DeviceRow → Type 0
HasOwner users d = has_user d.user_id users ≡ true

abbrev pub NetworkHasOwner : List User → Network → Type 0
NetworkHasOwner users n = has_user n.owner_id users ≡ true

abbrev pub HasBoth : List Network → List DeviceRow → Member → Type 0
HasBoth networks devices m =
    (has_network m.network_id networks ≡ true) × (has_device m.device_id devices ≡ true)

-- Names, node ids and memberships are unique, ids count up to the last key, and every foreign key refers
-- to a row.
pub record IsSound (db : Db) : Type 0 where
  pub names : Apart same_name db.users
  pub user_ids : Rising (λ u. u.id) 0 db.users db.user_seq
  pub nodes : Apart same_node db.devices
  pub device_ids : Rising (λ d. d.id) 0 db.devices db.device_seq
  pub owners : All (HasOwner db.users) db.devices
  pub network_ids : Rising (λ n. n.id) 0 db.networks db.network_seq
  pub network_owners : All (NetworkHasOwner db.users) db.networks
  pub pairs : Apart same_pair db.members
  pub both : All (HasBoth db.networks db.devices) db.members

pub opened-IsSound : IsSound opened
unfolding opened
opened-IsSound = record {
  names = tt;
  user_ids = omega arith;
  nodes = tt;
  device_ids = omega arith;
  owners = tt;
  network_ids = omega arith;
  network_owners = tt;
  pairs = tt;
  both = tt;
}

pub text_eq_comm : (s t : Text) → text_eq s t ≡ text_eq t s
text_eq_comm s t = ground (arith, eq_iff s t, eq_iff t s)

pub missed : {A : Type 0} (o : Option A) → is_some o ≡ false → o ≡ none
missed none e = refl
missed (some a) e = absurd (cc)

-- A conditional whose other branch leaves the tables alone.
pub guarded :
    (b : Bool) (db : Db) (t : Db × Bool)
    → IsSound db
    → (b ≡ false → IsSound t.0)
    → IsSound (if b then (db, false) else t).0
guarded true db t h k = h
guarded false db t h k = k refl

pub working :
    (b : Bool) (db : Db) (t : Db × Bool)
    → IsSound db
    → IsSound t.0
    → IsSound (if b then t else (db, false)).0
working true db t h k = k
working false db t h k = h

pub create_user-IsSound :
    (now username password_hash : Text) (db : Db)
    → IsSound db
    → IsSound (create_user now username password_hash db).0
unfolding create_user
create_user-IsSound now username password_hash db h =
    guarded (not db.works || taken) db _ h (λ free. record {
      names =
          append-Apart same_name db.users row (λ u v. text_eq_comm v.username u.username) h.names
            (missed _ (ground (arith, free)));
      user_ids = append-Rising (λ (u : User). u.id) 0 db.users db.user_seq row refl h.user_ids;
      nodes = h.nodes;
      device_ids = h.device_ids;
      owners =
          All-map (HasOwner db.users) _ db.devices
            (λ d owned. found-append (λ (u : User). u.id == d.user_id) db.users row owned) h.owners;
      network_ids = h.network_ids;
      network_owners =
          All-map (NetworkHasOwner db.users) _ db.networks
            (λ n owned. found-append (λ (u : User). u.id == n.owner_id) db.users row owned)
            h.network_owners;
      pairs = h.pairs;
      both = h.both;
    })
  where
    taken : Bool
    taken = is_some (find_row (λ (u : User). text_eq u.username (c_str username)) db.users)

    row : User
    row = record {
      id = db.user_seq + 1;
      username = c_str username;
      password_hash = c_str password_hash;
      created_at = now;
      updated_at = now;
    }

module _ (arrays : TextArray) where
  pub create_device-IsSound :
      (now : Text) (user_id : ℕ) (device : Device) (db : Db)
      → IsSound db
      → IsSound (create_device arrays now user_id device db).0
  unfolding create_device
  create_device-IsSound now user_id device db h =
      guarded (not db.works || taken || not (has_user user_id db.users)) db _ h (λ free. record {
        names = h.names;
        user_ids = h.user_ids;
        nodes =
            append-Apart same_node db.devices row (λ d e. text_eq_comm e.node_id d.node_id) h.nodes
              (missed _ (ground (arith, free)));
        device_ids =
            append-Rising (λ (d : DeviceRow). d.id) 0 db.devices db.device_seq row refl
              h.device_ids;
        owners = All-append (HasOwner db.users) db.devices row h.owners (ground (arith, free));
        network_ids = h.network_ids;
        network_owners = h.network_owners;
        pairs = h.pairs;
        both =
            All-map (HasBoth db.networks db.devices) _ db.members
              (λ m refs. (
                refs.0,
                found-append (λ (d : DeviceRow). d.id == m.device_id) db.devices row refs.1,
              ))
              h.both;
      })
    where
      taken : Bool
      taken = is_some (find_row (named device.node_id) db.devices)

      row : DeviceRow
      row = record {
        id = db.device_seq + 1;
        node_id = c_str device.node_id;
        user_id = user_id;
        device_name = c_str device.device_name;
        public_key = c_str device.public_key;
        public_ip = c_str device.public_ip;
        public_port = device.public_port;
        lan_ips = c_str (arrays.dump_array device.lan_ips);
        virtual_ip = [];
        online = false;
        last_heartbeat = none;
        created_at = now;
        updated_at = now;
      }
