-- ===== src/Service/Networks/Leaves.antt =====
-- Leaving a network in src/service/network_service.cpp.
use natt.Prelude.{
  ℕ, ◌≡◌, refl, sym, ap, ◌∙◌, inl, inr, Bool, true, false, not, ◌&&◌, ◌||◌, Option, none, some,
  List, [], ◌∷◌, arith, ◌==◌, if◌then◌else◌, Bool-cases, is_some, is_empty, keep_if, Text,
  text_eq_refl,
}
use natt.Inet.{Inet}
use natt.Ipam.{Allocator, free, is_allocated}
use mathlib.Core.Path.{subst}
use natt.Ipam.Free.{free_lem}
use natt.Data.{DeviceRow, Network, Member, Db, find_row, update_rows, c_str}
use natt.Data.Devices.{
  TextArray, named, read_device, find_by_node_id, update_device, update_virtual_ip,
}
use natt.Data.Networks.{find_network_by_id, is_pair, remove_member_row, is_device_in_network}
use natt.Service.Networks.Joins.{if_cases}
use natt.Service.Networks.{leave_network}

empty_text : (s : Text) → is_empty s ≡ true → s ≡ []
empty_text [] e = refl
empty_text (c ∷ s) e = absurd (cc)

abbrev lookup_ip : Option DeviceRow → Option Text
lookup_ip none = none
lookup_ip (some d) = some d.virtual_ip

-- The first of the rows that stay.
kept-keep_if :
    {A : Type 0} (p k : A → Bool) (xs : List A)
    → ((x : A) → p x ≡ true → k x ≡ true)
    → find_row p (keep_if k xs) ≡ find_row p xs
unfolding find_row
kept-keep_if p k [] h = refl
kept-keep_if p k (x ∷ xs) h = elim (Bool-cases (k x)) [
  | inl hit ↦ rw hit (ground (arith, kept-keep_if p k xs h))
  | inr miss ↦ rw miss (ground (arith, miss, h x, kept-keep_if p k xs h))
]

gone-keep_if :
    {A : Type 0} (p : A → Bool) (xs : List A) → find_row p (keep_if (λ x. not (p x)) xs) ≡ none
unfolding find_row
gone-keep_if p [] = refl
gone-keep_if p (x ∷ xs) = elim (Bool-cases (p x)) [
  | inl hit ↦ rw hit (gone-keep_if p xs)
  | inr miss ↦ rw (miss, miss) (gone-keep_if p xs)
]

found-update_rows :
    {A : Type 0} (p : A → Bool) (f : A → A) (xs : List A) (x : A)
    → ((y : A) → p (f y) ≡ p y)
    → find_row p xs ≡ some x
    → find_row p (update_rows p f xs) ≡ some (f x)
unfolding find_row update_rows
found-update_rows {A = A} p f [] x h e = absurd (cc)
found-update_rows {A = A} p f (y ∷ ys) x h e = elim (Bool-cases (p y)) [
  | inl hit ↦ rw (hit, h y, hit) (ap (λ (z : A). some (f z)) (some_inj (ground (arith, hit))))
  | inr miss ↦ rw (miss, miss) (found-update_rows p f ys x h (ground (arith, miss)))
]
  where
    some_inj : some y ≡ some x → y ≡ x
    some_inj e = cc

unmarked :
    (net : Inet) (id ip : Text) (pools : Allocator)
    → is_allocated net id ip (free net id ip pools).0 ≡ false
unmarked net id ip pools = ground (arith, (free_lem net id ip id ip pools).1, text_eq_refl id)

-- This membership is gone and another one is as it was, the node has no address, and an address that it
-- had is free in the pool of the network.
abbrev pub Left :
    Inet → ℕ → Text → DeviceRow → Db → Network → ℕ → ℕ → Db × Allocator × Text → Type 0
Left net network_id node_id row db n other_network other_device r =
    (r.2 ≡ [])
    × (is_device_in_network network_id row.id r.0 ≡ false)
    × (is_device_in_network other_network other_device r.0
        ≡ is_device_in_network other_network other_device db)
    × (lookup_ip (find_row (named node_id) r.0.devices) ≡ some [])
    × ((is_empty row.virtual_ip || not (is_allocated net n.name row.virtual_ip r.1)) ≡ true)

module _ (net : Inet) (arrays : TextArray) (now : Text) (network_id : ℕ) (node_id : Text)
    (row : DeviceRow) (db : Db) (pools : Allocator) (works : db.works ≡ true)
    (found : find_row (named node_id) db.devices ≡ some row) where
  abbrev rest_of : Db
  rest_of = record db {
    members = keep_if (λ (m : Member). not (is_pair network_id row.id m)) db.members;
  }

  abbrev no_address : DeviceRow → DeviceRow
  no_address d = record d { virtual_ip = []; updated_at = now }

  abbrev cleared_db : Db
  cleared_db = record rest_of { devices = update_rows (named node_id) no_address db.devices }

  known : find_by_node_id arrays node_id db ≡ some (read_device arrays row)
  unfolding find_by_node_id
  known = rw (works, found) refl

  removed : remove_member_row network_id row.id db ≡ (rest_of, true)
  unfolding remove_member_row
  removed = rw works refl

  cleared : (update_virtual_ip now node_id [] rest_of).0 ≡ cleared_db
  unfolding update_virtual_ip update_device c_str
  cleared = rw works refl

  leave_eq : leave_network net arrays now network_id node_id db pools ≡ (
      if is_empty row.virtual_ip then (rest_of, pools, []) else (
        cleared_db,
        elim (find_network_by_id network_id db) [
          | none ↦ pools
          | some n ↦ (free net n.name row.virtual_ip pools).0
        ],
        [],
      ))
  unfolding leave_network read_device find_network_by_id
  leave_eq = rw (leave_network, known, removed, cleared) refl

  cleared_row : find_row (named node_id) cleared_db.devices ≡ some (no_address row)
  cleared_row = found-update_rows (named node_id) no_address db.devices row (λ d. refl) found

  gone :
      (after : Db)
      → after.members ≡ rest_of.members
      → is_device_in_network network_id row.id after ≡ false
  unfolding is_device_in_network
  gone after e = ground (arith, e, gone-keep_if (is_pair network_id row.id) db.members)

  stays :
      (other_network other_device : ℕ) (after : Db)
      → (other_network == network_id && other_device == row.id) ≡ false
      → after.works ≡ db.works
      → after.members ≡ rest_of.members
      → is_device_in_network other_network other_device after
        ≡ is_device_in_network other_network other_device db
  unfolding is_device_in_network
  stays other_network other_device after apart same e =
      ap (λ (b : Bool). b && is_some (find_row (is_pair other_network other_device) after.members))
        same
      ∙ ap
          (λ (ms : List Member).
            db.works && is_some (find_row (is_pair other_network other_device) ms))
          e
      ∙ ap (λ (o : Option Member). db.works && is_some o)
          (kept-keep_if (is_pair other_network other_device) _ db.members
            (λ m here. ground (arith, here, apart)))

  -- A node that is known leaves a network without an error. It is no member of this network then, every
  -- other membership is as it was, the node has no address, and an address that it had is not marked in the
  -- pool of the network.
  pub leave_network-Left :
      (n : Network) (other_network other_device : ℕ)
      → find_network_by_id network_id db ≡ some n
      → (other_network == network_id && other_device == row.id) ≡ false
      → Left net network_id node_id row db n other_network other_device
          (leave_network net arrays now network_id node_id db pools)
  unfolding is_device_in_network
  leave_network-Left n other_network other_device there other =
      subst (Left net network_id node_id row db n other_network other_device) (sym leave_eq) (
        if_cases (Left net network_id node_id row db n other_network other_device)
          (is_empty row.virtual_ip) _ _
          (λ none_given. (
            refl,
            gone rest_of refl,
            stays other_network other_device rest_of other refl refl,
            ap lookup_ip found ∙ ap some (empty_text row.virtual_ip none_given),
            ap (λ (b : Bool). b || not (is_allocated net n.name row.virtual_ip pools)) none_given,
          ))
          (λ given. (
            refl,
            gone cleared_db refl,
            stays other_network other_device cleared_db other refl refl,
            ap lookup_ip cleared_row,
            rw (there, given, unmarked net n.name row.virtual_ip pools) refl,
          )))
