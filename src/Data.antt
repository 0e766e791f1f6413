-- ===== src/Data.antt =====
-- src/repository: the tables of the database and the statements over them. An SQL statement is a function
-- on the tables: rows stand in the order of insertion, in which a query without ORDER BY gives them, and a key
-- counts up from the last one ever given. `works` is false where the handle is null or the statements
-- fail; `now` is `datetime('now')`. An id is not negative.
pub mod Users
pub mod Devices
pub mod Networks
pub mod Rows
pub mod Sound
pub mod Statements
pub mod Links
pub mod Keys
pub mod Histories
mod Tests
use natt.Prelude.{
  ℕ, zero, suc, Bool, true, Option, none, some, List, [], ◌∷◌, ◌==◌, if◌then◌else◌, is_some, Text,
}
use natt.Prelude.Int.{ℤ}

pub record User : Type 0 where
  pub id : ℕ
  pub username : Text
  pub password_hash : Text
  pub created_at : Text
  pub updated_at : Text

-- A row of `devices`. `lan_ips` is the text of a JSON array, `last_heartbeat` may be NULL.
pub record DeviceRow : Type 0 where
  pub id : ℕ
  pub node_id : Text
  pub user_id : ℕ
  pub device_name : Text
  pub public_key : Text
  pub public_ip : Text
  pub public_port : ℤ
  pub lan_ips : Text
  pub virtual_ip : Text
  pub online : Bool
  pub last_heartbeat : Option Text
  pub created_at : Text
  pub updated_at : Text

pub record Network : Type 0 where
  pub id : ℕ
  pub name : Text
  pub owner_id : ℕ
  pub subnet : Text
  pub created_at : Text
  pub updated_at : Text

-- A row of `network_devices`.
pub record Member : Type 0 where
  pub network_id : ℕ
  pub device_id : ℕ
  pub joined_at : Text

-- The tables of `initialize`, with the last key of each.
pub record Db : Type 0 where
  pub works : Bool
  pub users : List User
  pub devices : List DeviceRow
  pub networks : List Network
  pub members : List Member
  pub user_seq : ℕ
  pub device_seq : ℕ
  pub network_seq : ℕ

-- A database that has just been opened and initialized.
unfoldable pub opened : Db
opened = record {
  works = true;
  users = [];
  devices = [];
  networks = [];
  members = [];
  user_seq = 0;
  device_seq = 0;
  network_seq = 0;
}

-- `sqlite3_bind_text(stmt, i, s.c_str(), -1, …)`: the text up to its first zero byte.
unfoldable pub c_str : Text → Text
c_str [] = []
c_str (zero ∷ s) = []
c_str (suc c ∷ s) = suc c ∷ c_str s

module _ {ℓ} {A : Type ℓ} where
  -- The first row that a condition selects.
  unfoldable pub find_row : (A → Bool) → List A → Option A
  find_row p [] = none
  find_row p (row ∷ rows) = if p row then some row else find_row p rows

  -- UPDATE of the rows that a condition selects.
  unfoldable pub update_rows : (A → Bool) → (A → A) → List A → List A
  update_rows p f [] = []
  update_rows p f (row ∷ rows) = (if p row then f row else row) ∷ update_rows p f rows

abbrev pub has_user : ℕ → List User → Bool
has_user id users = is_some (find_row (λ (u : User). u.id == id) users)

abbrev pub has_device : ℕ → List DeviceRow → Bool
has_device id devices = is_some (find_row (λ (d : DeviceRow). d.id == id) devices)

abbrev pub has_network : ℕ → List Network → Bool
has_network id networks = is_some (find_row (λ (n : Network). n.id == id) networks)
