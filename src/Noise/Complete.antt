-- ===== src/Noise/Complete.antt =====
-- A session of src/crypto/NoiseProtocol.cpp that has finished its handshake stays as it is.
use natt.Prelude.{◌≡◌, refl, Bool, true, false, not, ◌||◌, Option, none, arith, if◌then◌else◌, Text}
use natt.Noise.{OpenSsl}
use natt.Noise.Session.{
  Noise, is_initiator, build_handshake_message1, handle_handshake_message1,
  handle_handshake_message2,
}

if_true {ℓ} : {A : Type ℓ} (b : Bool) (x y : A) → b ≡ true → (if b then x else y) ≡ x
if_true true x y e = refl
if_true false x y e = absurd (cc)

third : (a b c : Bool) → c ≡ true → (a || b || c) ≡ true
third a b c e = ground arith

module _ (ssl : OpenSsl) (s : Noise) (complete : s.handshake_complete ≡ true) where
  pub build_handshake_message1_complete :
      (random : Option Text) → build_handshake_message1 ssl random s ≡ (s, none)
  unfolding build_handshake_message1
  build_handshake_message1_complete random =
      if_true _ _ _ (third (not (is_initiator s.role)) s.msg1_sent s.handshake_complete complete)

  pub handle_handshake_message1_complete :
      (random : Option Text) (payload : Text)
      → handle_handshake_message1 ssl random payload s ≡ (s, none)
  unfolding handle_handshake_message1
  handle_handshake_message1_complete random payload =
      if_true _ _ _ (third false (is_initiator s.role) s.handshake_complete complete)

  pub handle_handshake_message2_complete :
      (payload : Text) → handle_handshake_message2 ssl payload s ≡ (s, false)
  unfolding handle_handshake_message2
  handle_handshake_message2_complete payload =
      if_true _ _ _
        (third (not (is_initiator s.role)) (not s.msg1_sent) s.handshake_complete complete)
