-- ===== src/Data/Keys.antt =====
-- An id that a table of src/repository has given and lost is never given again: AUTOINCREMENT.
use natt.Prelude.{
  ℕ, ◌+◌, ◌≤◌, ◌≡◌, refl, ap, ◌∙◌, Bool, true, false, not, ◌||◌, none, some, Option, List, [], ◌∷◌,
  ◌++◌, arith, ◌==◌, if◌then◌else◌, is_some, keep_if, Text,
}
use natt.Ws.Device.{Device}
use natt.Data.{
  User, DeviceRow, Network, Member, Db, find_row, update_rows, has_user, has_device, has_network,
}
use natt.Data.Rows.{missed-append, missed-keep_if, find_row-update_rows}
use natt.Data.Sound.{missed}
use natt.Data.Users.{create_user}
use natt.Data.Devices.{
  TextArray, named, create_device, update_device, update_identity, remove_device_row,
}
use natt.Data.Networks.{
  create_network, is_pair, add_device, remove_member_row, update_subnet, remove_network,
}

-- The ids are among those that were given, and no row has them.
abbrev pub Gone : ℕ → ℕ → ℕ → Db → Type 0
Gone user device network db =
    (user ≤ db.user_seq)
    × (has_user user db.users ≡ false)
    × (device ≤ db.device_seq)
    × (has_device device db.devices ≡ false)
    × (network ≤ db.network_seq)
    × (has_network network db.networks ≡ false)

-- No counter goes back.
abbrev pub Later : Db → Db → Type 0
Later db after =
    (db.user_seq ≤ after.user_seq)
    × (db.device_seq ≤ after.device_seq)
    × (db.network_seq ≤ after.network_seq)

if_both {κ} :
    {B : Type 0} (P : B → Type κ) (b : Bool) (x y : B) → P x → P y → P (if b then x else y)
if_both P true x y h k = h
if_both P false x y h k = k

module _ {A : Type 0} (id : A → ℕ) (i : ℕ) where
  gone-append :
      (xs : List A) (row : A) (seq : ℕ)
      → i ≤ seq
      → id row ≡ seq + 1
      → is_some (find_row (λ x. id x == i) xs) ≡ false
      → is_some (find_row (λ x. id x == i) (xs ++ row ∷ [])) ≡ false
  gone-append xs row seq le e h =
      ap is_some (missed-append (λ x. id x == i) xs row (missed _ h) (ground (arith, e)))

  gone-keep_if :
      (k : A → Bool) (xs : List A)
      → is_some (find_row (λ x. id x == i) xs) ≡ false
      → is_some (find_row (λ x. id x == i) (keep_if k xs)) ≡ false
  gone-keep_if k xs h = ap is_some (missed-keep_if (λ x. id x == i) k xs (missed _ h))

  gone-update_rows :
      (q : A → Bool) (f : A → A) (xs : List A)
      → ((x : A) → id (f x) ≡ id x)
      → is_some (find_row (λ x. id x == i) xs) ≡ false
      → is_some (find_row (λ x. id x == i) (update_rows q f xs)) ≡ false
  gone-update_rows q f xs same h =
      find_row-update_rows (λ x. id x == i) q f xs (λ x. ap (λ (n : ℕ). n == i) (same x)) ∙ h

module _ (user device network : ℕ) (db : Db) (h : Gone user device network db) where
  -- What a statement keeps, from these tables.
  abbrev pub Kept : Db × Bool → Type 0
  Kept r = Gone user device network r.0 × Later db r.0

  kept_same : (b : Bool) → Kept (db, b)
  kept_same b = (h, (omega arith, omega arith, omega arith))

  pub create_user-Kept :
      (now username password_hash : Text) → Kept (create_user now username password_hash db)
  unfolding create_user
  create_user-Kept now username password_hash = if_both Kept _ _ _ (kept_same false) (
    (
      omega (arith, h.0),
      gone-append (λ (u : User). u.id) user db.users _ db.user_seq h.0 refl h.1,
      h.2,
      h.3,
      h.4,
      h.5,
    ),
    (omega arith, omega arith, omega arith),
  )

  pub create_device-Kept :
      (arrays : TextArray) (now : Text) (user_id : ℕ) (d : Device)
      → Kept (create_device arrays now user_id d db)
  unfolding create_device
  create_device-Kept arrays now user_id d = if_both Kept _ _ _ (kept_same false) (
    (
      h.0,
      h.1,
      omega (arith, h.2),
      gone-append (λ (d : DeviceRow). d.id) device db.devices _ db.device_seq h.2 refl h.3,
      h.4,
      h.5,
    ),
    (omega arith, omega arith, omega arith),
  )

  pub create_network-Kept :
      (now name : Text) (owner_id : ℕ) → Kept (create_network now name owner_id db)
  unfolding create_network
  create_network-Kept now name owner_id = if_both Kept _ _ _ (kept_same false) (
    (
      h.0,
      h.1,
      h.2,
      h.3,
      omega (arith, h.4),
      gone-append (λ (n : Network). n.id) network db.networks _ db.network_seq h.4 refl h.5,
    ),
    (omega arith, omega arith, omega arith),
  )

  pub update_device-Kept :
      (change : DeviceRow → DeviceRow) (node_id : Text)
      → ((d : DeviceRow) → (change d).id ≡ d.id)
      → Kept (update_device change node_id db)
  unfolding update_device
  update_device-Kept change node_id same =
      if_both Kept _ _ _
        (
          (
            h.0,
            h.1,
            h.2,
            gone-update_rows (λ (d : DeviceRow). d.id) device (named node_id) change db.devices same
                h.3,
            h.4,
            h.5,
          ),
          (omega arith, omega arith, omega arith),
        )
        (kept_same false)

  pub update_identity-Kept :
      (now node_id device_name public_key : Text) (user_id : ℕ)
      → Kept (update_identity now node_id device_name public_key user_id db)
  unfolding update_identity
  update_identity-Kept now node_id device_name public_key user_id =
      if_both Kept _ _ _ (kept_same false) (update_device-Kept _ node_id (λ d. refl))

  pub remove_device_row-Kept : (node_id : Text) → Kept (remove_device_row node_id db)
  unfolding remove_device_row
  remove_device_row-Kept node_id =
      if_both Kept _ _ _ (kept_same false) (go (find_row (named node_id) db.devices))
    where
      go :
          (o : Option DeviceRow)
          → Kept (elim o as (λ _. Db × Bool) [
            | none ↦ (db, true)
            | some row ↦ (
              record db {
                devices = keep_if (λ (d : DeviceRow). not (named node_id d)) db.devices;
                members = keep_if (λ (m : Member). not (m.device_id == row.id)) db.members;
              },
              true,
            )
          ])
      go none = kept_same true
      go (some row) = (
        (h.0, h.1, h.2, gone-keep_if (λ (d : DeviceRow). d.id) device _ db.devices h.3, h.4, h.5),
        (omega arith, omega arith, omega arith),
      )

  add_stages :
      (a b c : Bool) (t : Db × Bool)
      → Kept t
      → Kept (if a then (db, false) else if b then (db, true) else if c then (db, false) else t)
  add_stages true b c t k = kept_same false
  add_stages false true c t k = kept_same true
  add_stages false false true t k = kept_same false
  add_stages false false false t k = k

  pub add_device-Kept :
      (now : Text) (network_id device_id : ℕ) → Kept (add_device now network_id device_id db)
  unfolding add_device
  add_device-Kept now network_id device_id =
      add_stages (not db.works) (is_some (find_row (is_pair network_id device_id) db.members))
        (not (has_network network_id db.networks) || not (has_device device_id db.devices))
        (
          record db {
            members =
                db.members
                ++ record { network_id = network_id; device_id = device_id; joined_at = now } ∷ [];
          },
          true,
        )
        (h, (omega arith, omega arith, omega arith))

  pub remove_member_row-Kept :
      (network_id device_id : ℕ) → Kept (remove_member_row network_id device_id db)
  unfolding remove_member_row
  remove_member_row-Kept network_id device_id =
      if_both Kept _ _ _ (h, (omega arith, omega arith, omega arith)) (kept_same false)

  pub update_subnet-Kept :
      (network_id : ℕ) (subnet now : Text) → Kept (update_subnet network_id subnet now db)
  unfolding update_subnet
  update_subnet-Kept network_id subnet now =
      if_both Kept _ _ _
        (
          (
            h.0,
            h.1,
            h.2,
            h.3,
            h.4,
            gone-update_rows (λ (n : Network). n.id) network _ _ db.networks (λ n. refl) h.5,
          ),
          (omega arith, omega arith, omega arith),
        )
        (kept_same false)

  pub remove_network-Kept : (network_id : ℕ) → Kept (remove_network network_id db)
  unfolding remove_network
  remove_network-Kept network_id =
      if_both Kept _ _ _
        (
          (h.0, h.1, h.2, h.3, h.4, gone-keep_if (λ (n : Network). n.id) network _ db.networks h.5),
          (omega arith, omega arith, omega arith),
        )
        (kept_same false)
