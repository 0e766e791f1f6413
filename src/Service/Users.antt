-- ===== src/Service/Users.antt =====
-- `UserService` of src/service/user_service.cpp. The empty text is success. `salt` and `behind` are what
-- `hash_password` finds in memory, `now` is the clock of the database.
pub mod Laws
use natt.Prelude.{
  ℕ, ◌-◌, ◌||◌, Option, none, some, [], ltb, if◌then◌else◌, is_some, length, is_empty, Text, txt,
}
use natt.Prelude.Int.{ℤ, pos}
use natt.Address.{Outcome, ok, throws}
use natt.Json.{JsonLib}
use natt.Auth.Jwt.{JwtConfig, generate_token}
use natt.Data.{User, Db}
use natt.Data.Users.{create_user, find_by_username}
use natt.Service.Password.{hash_password, verify_password}

pub record AuthResult : Type 0 where
  pub user_id : ℤ
  pub username : Text
  pub token : Text

unfoldable pub register_user : Text → Text → Text → Text → Text → Db → Db × Text
register_user now salt behind username password db =
    if is_empty username || is_empty password
    then (db, txt "Username and password are required")
    else if ltb (length username) 3 || ltb 64 (length username)
    then (db, txt "Username must be 3-64 characters")
    else if ltb (length password) 6
    then (db, txt "Password must be at least 6 characters")
    else if is_some (find_by_username username db)
    then (db, txt "Username already exists")
    else (let (after, created) = create_user now username (hash_password salt behind password) db in
        if created then (after, []) else (after, txt "Failed to create user"))

unfoldable pub ensure_user : Text → Text → Text → Text → Text → Db → Db × Text
ensure_user now salt behind username password db =
    if is_some (find_by_username username db)
    then (db, [])
    else register_user now salt behind username password db

unfoldable pub find_user_by_username : Text → Db → Option User
find_user_by_username username db = find_by_username username db

-- The two clock readings are those of `generate_token`, which throws where the name is not UTF-8.
unfoldable pub login : JsonLib → JwtConfig → ℕ → ℕ → Text → Text → Db → Outcome (Option AuthResult)
login lib config clock issued username password db = elim (find_by_username username db) [
  | none ↦ ok none
  | some user ↦
      if verify_password password user.password_hash
      then elim (generate_token lib config clock issued (pos user.id) user.username) [
        | none ↦ throws
        | some token ↦
            ok (some (record { user_id = pos user.id; username = user.username; token = token }))
      ]
      else ok none
]
