-- ===== src/Punch/Told.antt =====
-- What the punch callback of src/client/UdpPuncher.cpp is told, and what readiness means, as a relation
-- between the state before and behind a piece of code.
use natt.Prelude.{
  append_nil, append_assoc, ◌≡◌, refl, sym, ap, ◌∙◌, Bool, true, false, Option, none, some, List,
  [], ◌∷◌, ◌++◌, if◌then◌else◌, set,
}
use mathlib.Core.Path.{subst}
use natt.Noise.Session.{Noise}
use natt.Punch.{Puncher, PunchResult, Call, punch_result, notify}

-- The results among the calls.
unfoldable pub results : List Call → List Bool
results [] = []
results (punch_result r ∷ calls) = r.success ∷ results calls
results (_ ∷ calls) = results calls

-- From one value of `success_` to another: failures, then at most one success, and nothing behind it.
abbrev pub Told : Bool → Bool → List Bool → Type 0
Told b c [] = b ≡ c
Told b c (outcome ∷ later) = (b ≡ false) × Told outcome c later

pub Told-append :
    (b c d : Bool) (xs ys : List Bool) → Told b c xs → Told c d ys → Told b d (xs ++ ys)
Told-append b c d [] ys h k = subst (λ (x : Bool). Told x d ys) (sym h) k
Told-append b c d (x ∷ xs) ys h k = (h.0, Told-append x c d xs ys h.1 k)

pub results-append : (xs ys : List Call) → results (xs ++ ys) ≡ results xs ++ results ys
unfolding results
results-append [] ys = refl
results-append (punch_result r ∷ xs) ys = ap (◌∷◌ r.success) (results-append xs ys)
results-append (Call.packet_seen _ _ _ _ ∷ xs) ys = results-append xs ys
results-append (Call.peer_packet _ _ _ ∷ xs) ys = results-append xs ys
results-append (Call.relay_packet _ _ _ ∷ xs) ys = results-append xs ys
results-append (Call.relay_event _ _ _ ∷ xs) ys = results-append xs ys

abbrev pub IsComplete : Option Noise → Type 0
IsComplete none = ⊥
IsComplete (some noise) = noise.handshake_complete ≡ true

-- A puncher that is ready to encrypt has a session that has finished its handshake.
abbrev pub IsSecure : Puncher → Type 0
IsSecure s = s.noise_enabled ≡ true → s.noise_ready ≡ true → IsComplete s.noise

abbrev pub Reported : Puncher → Puncher → Type 0
Reported s t =
    (new : List Bool) × (results t.calls ≡ results s.calls ++ new) × Told s.success t.success new

pub record Keeps (s t : Puncher) : Type 0 where
  pub same_callbacks : t.callbacks ≡ s.callbacks
  pub reported : s.callbacks.punch_cb ≡ true → Reported s t
  pub secure : IsSecure s → IsSecure t

pub Keeps-trans : (s t u : Puncher) → Keeps s t → Keeps t u → Keeps s u
Keeps-trans s t u h k = record {
  same_callbacks = k.same_callbacks ∙ h.same_callbacks;
  reported = λ set.
      let (xs, e, f) = h.reported set in
      let (ys, e', f') =
        k.reported (ap (λ (c : natt.Punch.Callbacks). c.punch_cb) h.same_callbacks ∙ set) in
      (
        xs ++ ys,
        e' ∙ ap (λ (r : List Bool). r ++ ys) e ∙ append_assoc (results s.calls) xs ys,
        Told-append s.success t.success u.success xs ys f f',
      );
  secure = λ i. k.secure (h.secure i);
}

-- Code that tells the punch callback nothing and leaves `success_`.
pub Keeps-quiet :
    (s t : Puncher)
    → t.callbacks ≡ s.callbacks
    → results t.calls ≡ results s.calls
    → t.success ≡ s.success
    → (IsSecure s → IsSecure t)
    → Keeps s t
Keeps-quiet s t c r e i = record {
  same_callbacks = c;
  reported = λ set. ([], r ∙ sym (append_nil (results s.calls)), sym e);
  secure = i;
}

pub Keeps-refl : (s : Puncher) → Keeps s s
Keeps-refl s = Keeps-quiet s s refl refl refl (λ i. i)

pub Keeps-if :
    (s : Puncher) (b : Bool) (t u : Puncher)
    → (b ≡ true → Keeps s t)
    → (b ≡ false → Keeps s u)
    → Keeps s (if b then t else u)
Keeps-if s true t u h k = h refl
Keeps-if s false t u h k = k refl

pub Keeps-if-pair :
    (s : Puncher) (b : Bool) (p q : Puncher × Bool)
    → (b ≡ true → Keeps s p.0)
    → (b ≡ false → Keeps s q.0)
    → Keeps s (if b then p else q).0
Keeps-if-pair s true p q h k = h refl
Keeps-if-pair s false p q h k = k refl

pub Keeps-elim {ℓ} :
    {A : Type ℓ} (s : Puncher) (o : Option A) (base : Puncher) (f : A → Puncher)
    → Keeps s base
    → ((a : A) → o ≡ some a → Keeps s (f a))
    → Keeps s (elim o [ none ↦ base | some a ↦ f a ])
Keeps-elim s none base f h k = h
Keeps-elim s (some a) base f h k = k a refl

-- The punch callback is told a result, which `success_` then is.
pub Keeps-told :
    (s t : Puncher) (result : PunchResult) (is_set : Bool)
    → is_set ≡ s.callbacks.punch_cb
    → s.success ≡ false
    → t.callbacks ≡ s.callbacks
    → t.calls ≡ s.calls
    → t.success ≡ result.success
    → (IsSecure s → IsSecure t)
    → Keeps s (notify is_set (punch_result result) t)
unfolding notify results
Keeps-told s t result true set pending c e ok i = record {
  same_callbacks = c;
  reported = λ _. (
    result.success ∷ [],
    results-append t.calls (punch_result result ∷ [])
        ∙ ap (λ (calls : List Call). results calls ++ result.success ∷ []) e,
    (pending, sym ok),
  );
  secure = i;
}
Keeps-told s t result false unset pending c e ok i = record {
  same_callbacks = c;
  reported = λ set. absurd (cc);
  secure = i;
}

pub Keeps-some : (s t u : Puncher) → some t ≡ some u → Keeps s t → Keeps s u
Keeps-some s t u e h = let same : t ≡ u = cc in subst (Keeps s) same h
