-- ===== src/Data/Links.antt =====
-- The statements of src/repository/network_repo.cpp and the keys of the tables.
use natt.Prelude.{
  ℕ, ◌+◌, ◌≡◌, refl, ◌∙◌, inl, inr, Bool, not, ◌||◌, List, [], ◌∷◌, ◌++◌, arith, ◌==◌, Bool-cases,
  is_some, keep_if, All, Text, txt,
}
use natt.Data.{Network, Member, Db, c_str, find_row, has_user, has_device, has_network}
use natt.Data.Rows.{
  Apart, found-append, append-Apart, keep_if-Apart, found-keep_if, find_row-update_rows,
  append-Rising, keep_if-Rising, update_rows-Rising, All-append, All-update_rows, All-keep_if,
  All-map,
}
use natt.Data.Sound.{same_pair, NetworkHasOwner, HasBoth, IsSound, missed, guarded, working}
use natt.Data.Networks.{
  create_network, is_pair, add_device, remove_member_row, update_subnet, remove_network,
}

pub create_network-IsSound :
    (now name : Text) (owner_id : ℕ) (db : Db)
    → IsSound db
    → IsSound (create_network now name owner_id db).0
unfolding create_network
create_network-IsSound now name owner_id db h =
    guarded (not db.works || not (has_user owner_id db.users)) db _ h (λ free. record {
      names = h.names;
      user_ids = h.user_ids;
      nodes = h.nodes;
      device_ids = h.device_ids;
      owners = h.owners;
      network_ids =
          append-Rising (λ (n : Network). n.id) 0 db.networks db.network_seq row refl h.network_ids;
      network_owners =
          All-append (NetworkHasOwner db.users) db.networks row h.network_owners
            (ground (arith, free));
      pairs = h.pairs;
      both =
          All-map (HasBoth db.networks db.devices) _ db.members
            (λ m refs.
              (found-append (λ (n : Network). n.id == m.network_id) db.networks row refs.0, refs.1))
            h.both;
    })
  where
    row : Network
    row = record {
      id = db.network_seq + 1;
      name = c_str name;
      owner_id = owner_id;
      subnet = txt "10.0.0.0/24";
      created_at = now;
      updated_at = now;
    }

same_pair_comm : (m n : Member) → same_pair m n ≡ same_pair n m
same_pair_comm m n = ground arith

-- The tables with other memberships.
with_members :
    (db : Db) (members : List Member)
    → IsSound db
    → Apart same_pair members
    → All (HasBoth db.networks db.devices) members
    → IsSound (record db { members = members })
with_members db members h pairs both = record {
  names = h.names;
  user_ids = h.user_ids;
  nodes = h.nodes;
  device_ids = h.device_ids;
  owners = h.owners;
  network_ids = h.network_ids;
  network_owners = h.network_owners;
  pairs = pairs;
  both = both;
}

pub add_device-IsSound :
    (now : Text) (network_id device_id : ℕ) (db : Db)
    → IsSound db
    → IsSound (add_device now network_id device_id db).0
unfolding add_device
add_device-IsSound now network_id device_id db h = guarded (not db.works) db _ h (λ works.
    elim (Bool-cases there) [
      | inl hit ↦ rw hit h
      | inr miss ↦ rw miss (
          guarded
            (not (has_network network_id db.networks) || not (has_device device_id db.devices)) db _
            h
            (λ free.
              with_members db (db.members ++ row ∷ []) h
                (append-Apart same_pair db.members row same_pair_comm h.pairs (missed _ miss))
                (All-append (HasBoth db.networks db.devices) db.members row h.both
                  (ground (arith, free), ground (arith, free)))))
    ])
  where
    there : Bool
    there = is_some (find_row (is_pair network_id device_id) db.members)

    row : Member
    row = record { network_id = network_id; device_id = device_id; joined_at = now }

pub remove_member_row-IsSound :
    (network_id device_id : ℕ) (db : Db)
    → IsSound db
    → IsSound (remove_member_row network_id device_id db).0
unfolding remove_member_row
remove_member_row-IsSound network_id device_id db h = working db.works db _ h (
    with_members db (keep_if (λ (m : Member). not (is_pair network_id device_id m)) db.members) h
      (keep_if-Apart same_pair _ db.members h.pairs)
      (All-keep_if (HasBoth db.networks db.devices) _ _ db.members (λ m refs stays. refs) h.both))

pub update_subnet-IsSound :
    (network_id : ℕ) (subnet now : Text) (db : Db)
    → IsSound db
    → IsSound (update_subnet network_id subnet now db).0
unfolding update_subnet
update_subnet-IsSound network_id subnet now db h = working db.works db _ h (record {
  names = h.names;
  user_ids = h.user_ids;
  nodes = h.nodes;
  device_ids = h.device_ids;
  owners = h.owners;
  network_ids =
      update_rows-Rising (λ (n : Network). n.id) chosen change 0 db.networks db.network_seq
        (λ n. refl) h.network_ids;
  network_owners =
      All-update_rows (NetworkHasOwner db.users) chosen change db.networks (λ n owned. owned)
        h.network_owners;
  pairs = h.pairs;
  both =
      All-map (HasBoth db.networks db.devices) _ db.members
        (λ m refs. (
          find_row-update_rows (λ (n : Network). n.id == m.network_id) chosen change db.networks
                (λ n. refl)
              ∙ refs.0,
          refs.1,
        ))
        h.both;
})
  where
    chosen : Network → Bool
    chosen n = n.id == network_id

    change : Network → Network
    change n = record n { subnet = c_str subnet; updated_at = now }

All-any : {A : Type 0} {P : A → Type 0} (xs : List A) → ((x : A) → P x) → All P xs
All-any [] h = tt
All-any (x ∷ xs) h = (h x, All-any xs h)

pub remove_network-IsSound :
    (network_id : ℕ) (db : Db) → IsSound db → IsSound (remove_network network_id db).0
unfolding remove_network
remove_network-IsSound network_id db h = working db.works db _ h (record {
  names = h.names;
  user_ids = h.user_ids;
  nodes = h.nodes;
  device_ids = h.device_ids;
  owners = h.owners;
  network_ids = keep_if-Rising (λ (n : Network). n.id) _ 0 db.networks db.network_seq h.network_ids;
  network_owners =
      All-keep_if (NetworkHasOwner db.users) _ _ db.networks (λ n owned stays. owned)
        h.network_owners;
  pairs = keep_if-Apart same_pair _ db.members h.pairs;
  both =
      All-keep_if (HasBoth db.networks db.devices) _ _ db.members
        (λ m refs stays. (
          found-keep_if (λ (n : Network). n.id == m.network_id) _ db.networks
              (All-any db.networks (λ n here. ground (arith, here, stays))) refs.0,
          refs.1,
        ))
        h.both;
})
