-- ===== src/Service/Networks/Joins.antt =====
-- Joining and leaving a network in src/service/network_service.cpp.
use natt.Prelude.{
  ℕ, ◌≡◌, refl, ◌≢◌, ◌⊎◌, Bool, true, false, not, ◌&&◌, ◌||◌, Option, none, some, List, [], ◌∷◌,
  ◌++◌, if◌then◌else◌, is_some, is_empty, Text,
}
use natt.Prelude.Int.{pos_part}
use natt.Inet.{Inet}
use natt.Address.{Outcome, ok}
use natt.Ipam.{Allocator, allocate}
use natt.Ws.Device.{Device}
use natt.Data.{
  DeviceRow, Network, Member, Db, c_str, find_row, update_rows, has_network, has_device,
}
use natt.Data.Devices.{TextArray, named, find_by_node_id}
use natt.Data.Networks.{find_network_by_id, is_pair, add_device, is_device_in_network}
use natt.Service.Networks.{ensure_pool, assign_ip}

pub option_cases {ℓ κ μ} :
    {A : Type ℓ} {B : Type κ} (P : B → Type μ) (o : Option A) (base : B) (f : A → B)
    → P base
    → ((a : A) → o ≡ some a → P (f a))
    → P (elim o [ none ↦ base | some a ↦ f a ])
option_cases P none base f h k = h
option_cases P (some a) base f h k = k a refl

pub if_cases {κ μ} :
    {B : Type κ} (P : B → Type μ) (b : Bool) (x y : B)
    → (b ≡ true → P x)
    → (b ≡ false → P y)
    → P (if b then x else y)
if_cases P true x y h k = h refl
if_cases P false x y h k = k refl

abbrev pub member_row : Text → ℕ → ℕ → Member
member_row now network_id device_id = record {
  network_id = network_id;
  device_id = device_id;
  joined_at = now;
}

-- The branches of `add_device`.
abbrev add_stages : Db → Bool → Bool → Bool → Db → Db × Bool
add_stages db works there missing t =
    if not works
    then (db, false)
    else if there
    then (db, true)
    else if missing
    then (db, false)
    else (t, true)

stages-failed :
    (db : Db) (works there missing : Bool) (t : Db)
    → (add_stages db works there missing t).1 ≡ false
    → (add_stages db works there missing t).0 ≡ db
stages-failed db false there missing t e = refl
stages-failed db true true missing t e = refl
stages-failed db true false true t e = refl
stages-failed db true false false t e = absurd (cc)

stages-added :
    (db : Db) (works there missing : Bool) (t : Db)
    → (add_stages db works there missing t).1 ≡ true
    → (works && there) ≡ false
    → (works ≡ true) × ((add_stages db works there missing t).0 ≡ t)
stages-added db false there missing t e free = absurd (cc)
stages-added db true true missing t e free = absurd (cc)
stages-added db true false true t e free = absurd (cc)
stages-added db true false false t e free = (refl, refl)

module _ (now : Text) (network_id device_id : ℕ) (db : Db) where
  pub add_device-failed :
      (add_device now network_id device_id db).1 ≡ false
      → (add_device now network_id device_id db).0 ≡ db
  unfolding add_device
  add_device-failed e =
      stages-failed db db.works (is_some (find_row (is_pair network_id device_id) db.members))
        (not (has_network network_id db.networks) || not (has_device device_id db.devices))
        (record db { members = db.members ++ member_row now network_id device_id ∷ [] }) e

  pub add_device-added :
      (add_device now network_id device_id db).1 ≡ true
      → is_device_in_network network_id device_id db ≡ false
      → (db.works ≡ true)
        × ((add_device now network_id device_id db).0
            ≡ record db { members = db.members ++ member_row now network_id device_id ∷ [] })
  unfolding add_device is_device_in_network
  add_device-added e free =
      stages-added db db.works (is_some (find_row (is_pair network_id device_id) db.members))
        (not (has_network network_id db.networks) || not (has_device device_id db.devices))
        (record db { members = db.members ++ member_row now network_id device_id ∷ [] }) e free

abbrev pub returns : {A : Type 0} → Outcome A → Bool
returns (ok a) = true
returns _ = false

-- A property of the result, where there is one.
abbrev Ends : {A : Type 0} → (A → Type 0) → Outcome A → Type 0
Ends P (ok a) = P a
Ends P _ = Unit

-- The rows when a node has this address.
abbrev pub with_address : Text → Text → Text → List DeviceRow → List DeviceRow
with_address now node_id ip devices =
    if is_empty ip
    then devices
    else (update_rows (named node_id)
        (λ (d : DeviceRow). record d { virtual_ip = c_str ip; updated_at = now }) devices)

-- The address comes from the pool of the network, which is made where there is none; the row of the node
-- gets it, if it is one.
abbrev pub Given : Inet → Text → Text → Network → Db → Allocator → Db × Allocator → Type 0
Given net now node_id n db pools r =
    (with_pool : Allocator) × (ip : Text) × (ensure_pool net n pools ≡ ok with_pool)
    × (allocate net n.name with_pool ≡ ok (r.1, ip))
    × (r.0.members ≡ db.members)
    × (r.0.devices ≡ with_address now node_id ip db.devices)

module _ (net : Inet) (arrays : TextArray) (now : Text) (network_id : ℕ) (node_id : Text) (db : Db)
    (pools : Allocator) where
  -- The device was no member and is the last one now.
  abbrev pub Joined : Device → Db → Type 0
  Joined d after =
      (find_by_node_id arrays node_id db ≡ some d)
      × (is_device_in_network network_id (pos_part d.id) db ≡ false)
      × (after.members ≡ db.members ++ member_row now network_id (pos_part d.id) ∷ [])

  -- A device with an address keeps it, and the pools are as they were; without one it is given one.
  abbrev pub Addressed : Device → Db × Allocator → Type 0
  Addressed d r =
      ((is_empty d.virtual_ip ≡ false) × (r.0.devices ≡ db.devices) × (r.1 ≡ pools))
      ⊎ ((is_empty d.virtual_ip ≡ true)
          × (n : Network) × (find_network_by_id network_id db ≡ some n)
          × (after : Db) × (after.devices ≡ db.devices)
          × Given net now node_id n after pools r)

  -- How a join ends: with an error and nothing changed, with the device as a member, or, after the
  -- membership of a device without an address was written, without a result of the pools.
  abbrev pub JoinEnds : Outcome (Db × Allocator × Text) → Type 0
  JoinEnds (ok r) =
      ((r.2 ≢ []) × (r.0 ≡ db) × (r.1 ≡ pools))
      ⊎ ((r.2 ≡ []) × (d : Device) × Joined d r.0 × Addressed d (r.0, r.1))
  JoinEnds _ =
      (n : Network) × (d : Device) × (after : Db) × (find_network_by_id network_id db ≡ some n)
      × (is_empty d.virtual_ip ≡ true)
      × (after.devices ≡ db.devices)
      × (returns (assign_ip net now node_id n after pools) ≡ false)
      × Joined d after
