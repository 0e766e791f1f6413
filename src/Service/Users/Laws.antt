-- ===== src/Service/Users/Laws.antt =====
-- A registration and a login of src/service/user_service.cpp.
use natt.Prelude.{
  append_nil, ℕ, zero, suc, ◌+◌, ◌/◌, ◌%◌, ◌≡◌, refl, sym, ap, ◌∙◌, ◌≢◌, Bool, true, false, not,
  ◌||◌, Option, none, some, [], ◌∷◌, ◌++◌, arith, ltb, if◌then◌else◌, is_some, length, is_empty,
  All, Text, txt, text_eq, text_eq_refl,
}
use natt.Prelude.Int.{pos}
use natt.Address.{ok, throws}
use natt.Json.{JsonLib}
use natt.Auth.Sha.{hex_digit, hex_bytes}
use natt.Auth.Base64.Digits.{IsByte}
use natt.Auth.Jwt.{JwtConfig, generate_token}
use natt.Data.{User, Db, c_str, find_row}
use natt.Data.Rows.{find_row-append}
use natt.Data.Users.{create_user, find_by_username}
use natt.Service.Password.{bytes_to_hex, derive, hash_password}
use natt.Service.Password.Laws.{verify_password-hash_password}
use natt.Service.Users.{register_user, login}

-- The digits of bytes have no zero byte, so they are bound as a whole.
hex_bytes-whole :
    (bytes : Text) (rest : Text) → c_str (hex_bytes bytes ++ rest) ≡ hex_bytes bytes ++ c_str rest
unfolding c_str
hex_bytes-whole [] rest = refl
hex_bytes-whole (b ∷ bytes) rest =
    digit (b / 16) _
    ∙ ap (◌∷◌ (hex_digit (b / 16)))
        (digit (b % 16) _ ∙ ap (◌∷◌ (hex_digit (b % 16))) (hex_bytes-whole bytes rest))
  where
    positive : (c : ℕ) (s : Text) → c ≢ 0 → c_str (c ∷ s) ≡ c ∷ c_str s
    positive zero s h = absurd (h refl)
    positive (suc c) s h = refl

    digit : (n : ℕ) (s : Text) → c_str (hex_digit n ∷ s) ≡ hex_digit n ∷ c_str s
    digit n s = positive (hex_digit n) s (ground arith)

hash_password-whole :
    (salt behind password : Text)
    → c_str (hash_password salt behind password) ≡ hash_password salt behind password
unfolding c_str hash_password
hash_password-whole salt behind password =
    ap (λ (s : Text). txt "$sha256$" ++ (txt "10000" ++ (36 ∷ s)))
      (hex_bytes-whole (salt ++ behind) (36 ∷ hash)
        ∙ ap (λ (s : Text). hex_bytes (salt ++ behind) ++ (36 ∷ s))
            (ap c_str (sym (append_nil hash))
              ∙ hex_bytes-whole (derive password salt) []
              ∙ append_nil hash))
  where
    hash : Text
    hash = hex_bytes (derive password salt)

-- The tests of a registration in their order, and its insertion.
abbrev stages : Db → Bool → Bool → Bool → Bool → Option User → Db → Db × Text
stages db missing size short works found t =
    if missing
    then (db, txt "Username and password are required")
    else if size
    then (db, txt "Username must be 3-64 characters")
    else if short
    then (db, txt "Password must be at least 6 characters")
    else if is_some (if works then found else none)
    then (db, txt "Username already exists")
    else (let made : Db × Bool = (if not works || is_some found then (db, false) else (t, true)) in
        if made.1 then (made.0, []) else (made.0, txt "Failed to create user"))

stages-passed :
    (db : Db) (missing size short works : Bool) (found : Option User) (t : Db)
    → (stages db missing size short works found t).1 ≡ []
    → (works ≡ true) × (found ≡ none) × ((stages db missing size short works found t).0 ≡ t)
stages-passed db true size short works found t e = absurd (cc)
stages-passed db false true short works found t e = absurd (cc)
stages-passed db false false true works found t e = absurd (cc)
stages-passed db false false false false found t e = absurd (cc)
stages-passed db false false false true none t e = (refl, refl, refl)
stages-passed db false false false true (some u) t e = absurd (cc)

module _ (now salt behind username password : Text) (db : Db) where
  -- The row of the new user.
  abbrev new_user : User
  new_user = record {
    id = db.user_seq + 1;
    username = c_str username;
    password_hash = hash_password salt behind password;
    created_at = now;
    updated_at = now;
  }

  -- A registration that succeeds has added this row, whose name was free.
  register_user-added :
      (register_user now salt behind username password db).1 ≡ []
      → (db.works ≡ true)
        × (find_row (λ (u : User). text_eq u.username (c_str username)) db.users ≡ none)
        × ((register_user now salt behind username password db).0
            ≡ record db { users = db.users ++ new_user ∷ []; user_seq = db.user_seq + 1 })
  unfolding register_user create_user find_by_username
  register_user-added e =
      let (works, free, added) =
        stages-passed db (is_empty username || is_empty password)
          (ltb (length username) 3 || ltb 64 (length username)) (ltb (length password) 6) db.works
          (find_row (λ (u : User). text_eq u.username (c_str username)) db.users)
          (with_hash (c_str (hash_password salt behind password))) e in
      (works, free, added ∙ ap with_hash (hash_password-whole salt behind password))
    where
      with_hash : Text → Db
      with_hash hash = record db {
        users = db.users ++ record new_user { password_hash = hash } ∷ [];
        user_seq = db.user_seq + 1;
      }

  -- After a registration that ends without an error, a login with the same name gives the id that was
  -- free before, the name, and a token for them, for every password that derives the same bytes as the
  -- one that was registered, so for this one, and it gives nothing for any other. Where no token is issued,
  -- as for a name that is not UTF-8, a login with such a password throws.
  pub login-register_user :
      (lib : JsonLib) (config : JwtConfig) (clock issued : ℕ) (given : Text)
      → All IsByte salt
      → length salt ≡ 16
      → (register_user now salt behind username password db).1 ≡ []
      → login lib config clock issued username given
          (register_user now salt behind username password db).0
        ≡ (if text_eq (bytes_to_hex (derive given salt)) (bytes_to_hex (derive password salt))
            then elim (generate_token lib config clock issued
                (pos (db.user_seq + 1))
                (c_str username)) [
                  | none ↦ throws
                  | some token ↦ ok (
                      some (record {
                        user_id = pos (db.user_seq + 1);
                        username = c_str username;
                        token = token;
                      }))
                ]
            else ok none)
  unfolding login find_by_username
  login-register_user lib config clock issued given bytes size e =
      let (works, free, added) = register_user-added e in
      ap (login lib config clock issued username given) added
      ∙ simp
          (
            login,
            works,
            find_row-append (λ (u : User). text_eq u.username (c_str username)) db.users new_user,
            free,
            text_eq_refl (c_str username),
            verify_password-hash_password salt behind password given bytes size,
          )
          refl
