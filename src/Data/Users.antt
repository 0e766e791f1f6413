-- ===== src/Data/Users.antt =====
-- src/repository/user_repo.cpp.
use natt.Prelude.{
  ℕ, ◌+◌, Bool, true, false, not, ◌||◌, Option, none, [], ◌∷◌, ◌++◌, ◌==◌, if◌then◌else◌, is_some,
  Text, text_eq,
}
use natt.Data.{User, Db, c_str, find_row}

-- Fails where the name is taken: `username` is UNIQUE.
unfoldable pub create_user : Text → Text → Text → Db → Db × Bool
create_user now username password_hash db =
    if not db.works
      || is_some (find_row (λ (u : User). text_eq u.username (c_str username)) db.users)
    then (db, false)
    else (
      record db {
        users =
            db.users
            ++ record {
              id = db.user_seq + 1;
              username = c_str username;
              password_hash = c_str password_hash;
              created_at = now;
              updated_at = now;
            }
              ∷ [];
        user_seq = db.user_seq + 1;
      },
      true,
    )

unfoldable pub find_user_by_id : ℕ → Db → Option User
find_user_by_id id db = if db.works then find_row (λ (u : User). u.id == id) db.users else none

unfoldable pub find_by_username : Text → Db → Option User
find_by_username username db =
    if db.works then find_row (λ (u : User). text_eq u.username (c_str username)) db.users else none
