-- ===== src/Data/Statements.antt =====
-- The statements of src/repository that change or remove rows, and the keys of the tables.
use natt.Prelude.{
  ℕ, ◌≡◌, refl, sym, ap, ◌∙◌, ◌≢◌, inl, inr, Bool, true, false, not, ◌&&◌, Option, none, some, List,
  [], ◌∷◌, arith, ◌==◌, ==_iff, Bool-cases, is_some, keep_if, All, Text, text_eq, eq_of_text_eq,
}
use natt.Data.{DeviceRow, Member, Db, c_str, find_row, update_rows, has_user}
use natt.Data.Rows.{
  Apart, keep_if-Apart, found-keep_if, find_row-update_rows, update_rows-Apart, keep_if-Rising,
  update_rows-Rising, All-update_rows, All-keep_if, All-map,
}
use natt.Data.Sound.{same_node, same_pair, HasOwner, HasBoth, IsSound, missed, guarded, working}
use mathlib.Core.Path.{subst}
use natt.Data.Devices.{named, update_device, update_identity, remove_device_row}

-- A change of a row that keeps its id and its node id, and refers to a user.
pub update_device-IsSound :
    (change : DeviceRow → DeviceRow) (node_id : Text) (db : Db)
    → ((d : DeviceRow) → (change d).id ≡ d.id)
    → ((d : DeviceRow) → (change d).node_id ≡ d.node_id)
    → ((d : DeviceRow) → HasOwner db.users d → HasOwner db.users (change d))
    → IsSound db
    → IsSound (update_device change node_id db).0
unfolding update_device
update_device-IsSound change node_id db ids nodes owned h = working db.works db _ h (record {
  names = h.names;
  user_ids = h.user_ids;
  nodes =
      update_rows-Apart same_node (named node_id) change db.devices
        (λ d e. ap (λ (s : Text). text_eq s d.node_id) (nodes e))
        (λ d.
          ap {B = DeviceRow → Bool} (λ (s : Text) (e : DeviceRow). text_eq e.node_id s) (nodes d))
        h.nodes;
  device_ids =
      update_rows-Rising (λ (d : DeviceRow). d.id) (named node_id) change 0 db.devices db.device_seq
        ids h.device_ids;
  owners = All-update_rows (HasOwner db.users) (named node_id) change db.devices owned h.owners;
  network_ids = h.network_ids;
  network_owners = h.network_owners;
  pairs = h.pairs;
  both =
      All-map (HasBoth db.networks db.devices) _ db.members
        (λ m refs. (
          refs.0,
          find_row-update_rows (λ (d : DeviceRow). d.id == m.device_id) (named node_id) change
                db.devices (λ d. ap (λ (i : ℕ). i == m.device_id) (ids d))
              ∙ refs.1,
        ))
        h.both;
})

no_row :
    {A : Type 0} (p : A → Bool) (f : A → A) (xs : List A)
    → find_row p xs ≡ none
    → update_rows p f xs ≡ xs
unfolding find_row update_rows
no_row p f [] h = refl
no_row p f (x ∷ xs) h = elim (Bool-cases (p x)) [
  | inl hit ↦ absurd (ground (arith, hit))
  | inr miss ↦ rw miss (ap (◌∷◌ x) (no_row p f xs (ground (arith, miss))))
]

pub update_identity-IsSound :
    (now node_id device_name public_key : Text) (user_id : ℕ) (db : Db)
    → IsSound db
    → IsSound (update_identity now node_id device_name public_key user_id db).0
unfolding update_identity update_device
update_identity-IsSound now node_id device_name public_key user_id db h =
    guarded (is_some found && not (has_user user_id db.users)) db (update_device change node_id db)
      h
      (λ free. elim (Bool-cases (has_user user_id db.users)) [
        | inl known ↦
            update_device-IsSound change node_id db (λ d. refl) (λ d. refl) (λ d owned. known) h
        | inr unknown ↦ untouched (missed found (ground (arith, free, unknown)))
      ])
  where
    found : Option DeviceRow
    found = find_row (named node_id) db.devices

    change : DeviceRow → DeviceRow
    change d = record d {
      user_id = user_id;
      device_name = c_str device_name;
      public_key = c_str public_key;
      updated_at = now;
    }

    untouched :
        find_row (named node_id) db.devices ≡ none → IsSound (update_device change node_id db).0
    untouched e =
        working db.works db
          (record db { devices = update_rows (named node_id) change db.devices }, true) h
          (subst (λ (rows : List DeviceRow). IsSound (record db { devices = rows }))
            (sym (no_row (named node_id) change db.devices e)) h)

-- The rows that go with a node id are the one row that has it.
missed-All :
    {A : Type 0} (p : A → Bool) (xs : List A) → find_row p xs ≡ none → All (λ x. p x ≡ false) xs
unfolding find_row
missed-All p [] h = tt
missed-All p (x ∷ xs) h = elim (Bool-cases (p x)) [
  | inl hit ↦ absurd (ground (arith, hit))
  | inr miss ↦ (miss, missed-All p xs (ground (arith, miss)))
]

others_stay :
    (node_id : Text) (row : DeviceRow) (j : ℕ) (xs : List DeviceRow)
    → Apart same_node xs
    → find_row (named node_id) xs ≡ some row
    → j ≢ row.id
    → All (λ d. (d.id == j) ≡ true → not (named node_id d) ≡ true) xs
unfolding find_row
others_stay node_id row j [] a e ne = tt
others_stay node_id row j (d ∷ xs) a e ne = elim (Bool-cases (text_eq d.node_id (c_str node_id))) [
  | inl hit ↦
      let same : d ≡ row = ground (arith, hit, e) in
      (
        (λ here. absurd (ne (sym ((==_iff d.id j).0 here) ∙ ap (λ (r : DeviceRow). r.id) same))),
        All-map (λ (x : DeviceRow). named node_id x ≡ false) _ xs
            (λ x miss here. ground (arith, miss))
            (missed-All (named node_id) xs (
              subst (λ (s : Text). find_row (λ (x : DeviceRow). text_eq x.node_id s) xs ≡ none)
                (eq_of_text_eq d.node_id (c_str node_id) hit) a.0)),
      )
  | inr miss ↦
      ((λ _. ground (arith, miss)), others_stay node_id row j xs a.1 (ground (arith, miss)) ne)
]

pub remove_device_row-IsSound :
    (node_id : Text) (db : Db) → IsSound db → IsSound (remove_device_row node_id db).0
unfolding remove_device_row
remove_device_row-IsSound node_id db h =
    guarded (not db.works) db _ h (λ works. go (find_row (named node_id) db.devices) refl)
  where
    go :
        (o : Option DeviceRow)
        → find_row (named node_id) db.devices ≡ o
        → IsSound
            (elim o as (λ _. Db × Bool) [
              | none ↦ (db, true)
              | some row ↦ (
                record db {
                  devices = keep_if (λ (d : DeviceRow). not (named node_id d)) db.devices;
                  members = keep_if (λ (m : Member). not (m.device_id == row.id)) db.members;
                },
                true,
              )
            ]).0
    go none e = h
    go (some row) e = record {
      names = h.names;
      user_ids = h.user_ids;
      nodes = keep_if-Apart same_node _ db.devices h.nodes;
      device_ids =
          keep_if-Rising (λ (d : DeviceRow). d.id) _ 0 db.devices db.device_seq h.device_ids;
      owners = All-keep_if (HasOwner db.users) _ _ db.devices (λ d owned stays. owned) h.owners;
      network_ids = h.network_ids;
      network_owners = h.network_owners;
      pairs = keep_if-Apart same_pair _ db.members h.pairs;
      both =
          All-keep_if (HasBoth db.networks db.devices) _ _ db.members
            (λ m refs stays. (
              refs.0,
              found-keep_if (λ (d : DeviceRow). d.id == m.device_id) _ db.devices
                  (others_stay node_id row m.device_id db.devices h.nodes e (ground (arith, stays)))
                  refs.1,
            ))
            h.both;
    }
