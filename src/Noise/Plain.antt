-- ===== src/Noise/Plain.antt =====
-- A stand-in for OpenSSL in the tests of src/crypto/NoiseProtocol.cpp, with sums of keys in the place of X25519, a cut in
-- the place of the hash, and an open text with a constant tag in the place of the cipher.
use natt.Prelude.{
  ◌-◌, zero, suc, false, get_or, ltb, ℕ, ◌+◌, ◌≡◌, refl, sym, ap, ◌∙◌, false, Option, none, some,
  [], ◌∷◌, ◌++◌, arith, ◌==◌, if◌then◌else◌, length, take, replicate, Text, text_eq, text_eq_refl,
}
use natt.Noise.{trim, OpenSsl, IsOpenSsl, tag_size}

abbrev sum : Text → Text → Text
sum (x ∷ xs) (y ∷ ys) = (x + y) ∷ sum xs ys
sum _ _ = []

abbrev pub tag : Text
tag = replicate tag_size 7

-- A character for every byte, none of them the sign `=`.
abbrev shift : Text → Text
shift [] = []
shift (c ∷ bytes) = (if ltb c 61 then c else c + 1) ∷ shift bytes

abbrev unshift : Text → Text
unshift [] = []
unshift (c ∷ text) = (if ltb c 61 then c else c - 1) ∷ unshift text

unshift-shift : (bytes : Text) → unshift (shift bytes) ≡ bytes
unshift-shift [] = refl
unshift-shift (c ∷ bytes) =
    ap (λ (n : ℕ). n ∷ unshift (shift bytes)) (ground arith) ∙ ap (◌∷◌ c) (unshift-shift bytes)

no_sign : (bytes : Text) (i : ℕ) → (get_or (shift bytes) i 0 == 61) ≡ false
no_sign [] i = refl
no_sign (c ∷ bytes) zero = ground arith
no_sign (c ∷ bytes) (suc i) = no_sign bytes i

trim-shift : (bytes : Text) → trim (shift bytes) ≡ 0
unfolding trim
trim-shift bytes =
    let text = shift bytes in
    ground (arith, no_sign bytes (length text - 1), no_sign bytes (length text - 2))

take_all : (xs : Text) → take (length xs) xs ≡ xs
take_all [] = refl
take_all (x ∷ xs) = ap (◌∷◌ x) (take_all xs)

abbrev pub plain_ssl : OpenSsl
plain_ssl = record {
  PrivateKey = Text;
  PublicKey = Text;
  new_private_key = λ key. if length key == 32 then some key else none;
  new_public_key = λ key. some key;
  raw_public_key = λ key. some key;
  derive = λ key other. some (sum key other);
  evp_digest = λ message. some (take 32 (message ++ replicate 32 0));
  encode_block = shift;
  decode_block = λ text. some (unshift text);
  seal = λ key nonce ad plaintext. some (plaintext, tag);
  unseal = λ key nonce ad bytes given. if text_eq given tag then some bytes else none;
}

sum_comm : (xs ys : Text) → sum xs ys ≡ sum ys xs
sum_comm [] [] = refl
sum_comm [] (y ∷ ys) = refl
sum_comm (x ∷ xs) [] = refl
sum_comm (x ∷ xs) (y ∷ ys) =
    ap (λ (n : ℕ). n ∷ sum xs ys) (omega arith) ∙ ap (◌∷◌ (y + x)) (sum_comm xs ys)

agreed :
    (p q p' q' : Text) → some p ≡ some p' → some q ≡ some q' → some (sum p q') ≡ some (sum q p')
agreed p q p' q' e f = let c = sum_comm p q in cc

sealed :
    (plaintext bytes given : Text)
    → ◌≡◌ {A = Option (Text × Text)} (some (plaintext, tag)) (some (bytes, given))
    → (tag ≡ given) × (plaintext ≡ bytes)
sealed plaintext bytes given e = (cc, cc)

pub plain_ssl-IsOpenSsl : IsOpenSsl plain_ssl
plain_ssl-IsOpenSsl = record {
  derive_comm =
      λ p q p_raw q_raw p_public q_public e f g h. agreed p q p_public q_public (e ∙ g) (f ∙ h);
  import-public = λ p raw e. (raw, refl);
  seal-tag = λ key nonce ad plaintext bytes given e.
      let (tags, same) = sealed plaintext bytes given e in
      (ap length (sym tags), ap length (sym same));
  unseal-seal = λ key nonce ad plaintext bytes given e.
      let (tags, same) = sealed plaintext bytes given e in
      rw (← tags, ← same, text_eq_refl tag) refl;
  decode_block-encode_block = λ c bytes. (
    unshift (shift (c ∷ bytes)),
    refl,
    ap (take (length (c ∷ bytes))) (unshift-shift (c ∷ bytes)) ∙ take_all (c ∷ bytes),
    ap length (unshift-shift (c ∷ bytes)) ∙ omega (arith, trim-shift (c ∷ bytes)),
    refl,
  );
}
