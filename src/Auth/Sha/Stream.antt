-- ===== src/Auth/Sha/Stream.antt =====
-- The streaming interface of src/auth/jwt.cpp against the message that is padded as a whole and compressed
-- block by block.
use natt.Prelude.{
  append_nil, append_assoc, ℕ, zero, suc, ◌+◌, ◌-◌, ◌*◌, ◌/◌, ◌%◌, ◌^◌, ◌<◌, ◌≡◌, refl, sym, ap,
  ◌∙◌, inl, inr, true, false, List, [], ◌∷◌, ◌++◌, arith, ltb, ◌==◌, Bool-cases, length, take, drop,
  replicate, length-append, length-replicate, length-take, length-drop, take-append-drop,
}
use natt.Auth.Sha.{
  Words, Sha, reset, compress, transform, update_byte, update, length_bytes, output, digest, sha256,
}
use native.Mathlib.Nat.{zero-add, suc-add}

-- The hash after so many blocks of 64 bytes.
unfoldable pub blocks : ℕ → Words → List ℕ → Words
blocks zero h message = h
blocks (suc n) h message = blocks n (compress h (take 64 message)) (drop 64 message)

-- The message, the byte 128, zeros up to 8 bytes before a full block, and the number of bits.
unfoldable pub padded : List ℕ → List ℕ
padded message =
    message
    ++ 128
      ∷ (replicate ((119 - length message % 64) % 64) 0
          ++ length_bytes 8 (length message * 8 % 2 ^ 64))

unfoldable pub streamed : List ℕ → List ℕ
unfolding blocks padded
streamed message = output (blocks (length (padded message) / 64) reset.h (padded message))

pub update-append : (xs ys : List ℕ) (s : Sha) → update (xs ++ ys) s ≡ update ys (update xs s)
unfolding update
update-append [] ys s = refl
update-append (x ∷ xs) ys s = update-append xs ys (update_byte s x)

-- Bytes that do not fill the block stay in the buffer.
update_short :
    (xs : List ℕ) (s : Sha)
    → length s.buf + length xs < 64
    → update xs s ≡ record s { buf = s.buf ++ xs }
unfolding update update_byte
update_short [] s h = rw (append_nil s.buf) refl
update_short (x ∷ xs) s h = rw roomy (
    update_short xs (record s { buf = s.buf ++ x ∷ [] })
      (omega (arith, length-append s.buf (x ∷ [])))
    ∙ ap (λ (b : List ℕ). record s { buf = b }) (append_assoc s.buf (x ∷ []) xs))
  where
    roomy : (length (s.buf ++ x ∷ []) == 64) ≡ false
    roomy = ground (arith, length-append s.buf (x ∷ []))

-- Bytes that fill the block are hashed with what is in the buffer.
update_full :
    (xs : List ℕ) (s : Sha)
    → length s.buf < 64
    → length s.buf + length xs ≡ 64
    → update xs s ≡ transform (record s { buf = s.buf ++ xs })
unfolding update update_byte
update_full [] s r h = absurd (omega arith)
update_full (x ∷ []) s r h = rw full refl
  where
    full : (length (s.buf ++ x ∷ []) == 64) ≡ true
    full = ground (arith, length-append s.buf (x ∷ []))
update_full (x ∷ y ∷ ys) s r h = rw roomy (
    update_full (y ∷ ys) (record s { buf = s.buf ++ x ∷ [] }) (omega (arith, more))
      (omega (arith, more))
    ∙ ap (λ (b : List ℕ). transform (record s { buf = b })) (append_assoc s.buf (x ∷ []) (y ∷ ys)))
  where
    more : length (s.buf ++ x ∷ []) ≡ length s.buf + 1
    more = length-append s.buf (x ∷ [])

    roomy : (length (s.buf ++ x ∷ []) == 64) ≡ false
    roomy = ground (arith, more)

update_byte-buf :
    (s : Sha) (x : ℕ)
    → length s.buf < 64
    → (length (update_byte s x).buf ≡ (length s.buf + 1) % 64)
      × (((update_byte s x).totsize + length (update_byte s x).buf) % 2 ^ 64
          ≡ (s.totsize + length s.buf + 1) % 2 ^ 64)
unfolding update_byte transform
update_byte-buf s x h = elim (Bool-cases (length (s.buf ++ x ∷ []) == 64)) [
  | inl full ↦ rw full (ground (arith, full, more), ground (arith, full, more))
  | inr roomy ↦ rw roomy (ground (arith, roomy, more), ground (arith, roomy, more))
]
  where
    more : length (s.buf ++ x ∷ []) ≡ length s.buf + 1
    more = length-append s.buf (x ∷ [])

-- The buffer holds what is over after full blocks, and all bytes are counted.
length-update :
    (xs : List ℕ) (s : Sha)
    → length s.buf < 64
    → (length (update xs s).buf ≡ (length s.buf + length xs) % 64)
      × (((update xs s).totsize + length (update xs s).buf) % 2 ^ 64
          ≡ (s.totsize + length s.buf + length xs) % 2 ^ 64)
unfolding update
length-update [] s h = (omega arith, omega arith)
length-update (x ∷ xs) s h =
    let byte = update_byte-buf s x h in
    let rest = length-update xs (update_byte s x) (omega (arith, byte.0)) in
    (omega (arith, byte.0, rest.0), omega (arith, byte.1, rest.1))

abbrev zeros : ℕ → List ℕ
zeros n = replicate n 0

length-zeros : (n : ℕ) → length (zeros n) ≡ n
length-zeros n = let nought : ℕ = 0 in length-replicate n nought

zeros-append : (m n : ℕ) → zeros (m + n) ≡ zeros m ++ zeros n
zeros-append zero n = ap zeros (zero-add n)
zeros-append (suc m) n = ap zeros (suc-add m n) ∙ ap (◌∷◌ 0) (zeros-append m n)

length-length_bytes : (n bits : ℕ) → length (length_bytes n bits) ≡ n
unfolding length_bytes
length-length_bytes zero bits = refl
length-length_bytes (suc n) bits = omega (
  arith,
  length-append (length_bytes n (bits / 256)) (bits % 256 ∷ []),
  length-length_bytes n (bits / 256),
)

-- The closing where the number of bits fits behind the byte 128, and where it does not.
closing_one :
    (s : Sha) (tail : List ℕ)
    → length tail ≡ 8
    → length s.buf < 56
    → update (128 ∷ (replicate ((119 - length s.buf) % 64) 0 ++ tail)) s
      ≡ transform (record s {
        buf = ((s.buf ++ 128 ∷ []) ++ replicate (56 - length (s.buf ++ 128 ∷ [])) 0) ++ tail;
      })
closing_one s tail e h =
    rw
      (
        length-append s.buf (128 ∷ []),
        append_assoc (s.buf ++ 128 ∷ []) (replicate (56 - (length s.buf + 1)) 0) tail,
        append_assoc s.buf (128 ∷ []) (replicate (56 - (length s.buf + 1)) 0 ++ tail),
        count,
      )
      (update_full (128 ∷ (replicate (56 - (length s.buf + 1)) 0 ++ tail)) s (omega arith) (
        omega (
          arith,
          e,
          length-append (zeros (56 - (length s.buf + 1))) tail,
          length-zeros (56 - (length s.buf + 1)),
        )))
  where
    count : (119 - length s.buf) % 64 ≡ 56 - (length s.buf + 1)
    count = omega arith

closing_two :
    (s : Sha) (tail : List ℕ)
    → length tail ≡ 8
    → length s.buf < 64
    → 55 < length s.buf
    → update (128 ∷ (replicate ((119 - length s.buf) % 64) 0 ++ tail)) s ≡ (
        let t = transform (record s {
          buf = (s.buf ++ 128 ∷ []) ++ replicate (64 - length (s.buf ++ 128 ∷ [])) 0;
        }) in
        transform (record t { buf = (t.buf ++ replicate (56 - length t.buf) 0) ++ tail }))
unfolding transform
closing_two s tail e h k =
    ap (λ (xs : List ℕ). update xs s) apart
    ∙ update-append (128 ∷ zeros (63 - length s.buf)) (zeros 56 ++ tail) s
    ∙ ap (update (zeros 56 ++ tail)) first
    ∙ update_full (zeros 56 ++ tail) _ (omega arith)
        (omega (arith, e, length-append (zeros 56) tail, length-zeros 56))
  where
    apart :
        128 ∷ (zeros ((119 - length s.buf) % 64) ++ tail)
        ≡ (128 ∷ zeros (63 - length s.buf)) ++ (zeros 56 ++ tail)
    apart =
        ap (λ (n : ℕ). 128 ∷ (zeros n ++ tail)) count
        ∙ ap (λ (xs : List ℕ). 128 ∷ (xs ++ tail)) (zeros-append (63 - length s.buf) 56)
        ∙ ap (◌∷◌ 128) (append_assoc (zeros (63 - length s.buf)) (zeros 56) tail)
      where
        count : (119 - length s.buf) % 64 ≡ 63 - length s.buf + 56
        count = omega arith

    first :
        update (128 ∷ zeros (63 - length s.buf)) s
        ≡ transform
            (record s { buf = (s.buf ++ 128 ∷ []) ++ zeros (64 - length (s.buf ++ 128 ∷ [])) })
    first =
        update_full (128 ∷ zeros (63 - length s.buf)) s h
          (omega (arith, length-zeros (63 - length s.buf)))
        ∙ ap (λ (b : List ℕ). transform (record s { buf = b })) (sym same)
      where
        left : 64 - (length s.buf + 1) ≡ 63 - length s.buf
        left = omega arith

        same :
            (s.buf ++ 128 ∷ []) ++ zeros (64 - length (s.buf ++ 128 ∷ []))
            ≡ s.buf ++ 128 ∷ zeros (63 - length s.buf)
        same =
            rw (length-append s.buf (128 ∷ []), left)
              (append_assoc s.buf (128 ∷ []) (zeros (63 - length s.buf)))

-- The closing of the hash is an update by the padding.
digest-update :
    (s : Sha)
    → length s.buf < 64
    → digest s
      ≡ output
          (update
            (128
              ∷ (replicate ((119 - length s.buf) % 64) 0
                  ++ length_bytes 8 ((s.totsize + length s.buf) * 8 % 2 ^ 64)))
            s).h
unfolding digest
digest-update s h = elim (Bool-cases (ltb 56 (length (s.buf ++ 128 ∷ [])))) [
  | inl large ↦ rw large (
      ap (λ (t : Sha). output t.h)
        (sym (closing_two s tail (length-length_bytes 8 bits) h (ground (arith, large, more)))))
  | inr small ↦ rw small (
      ap (λ (t : Sha). output t.h)
        (sym (closing_one s tail (length-length_bytes 8 bits) (ground (arith, small, more)))))
]
  where
    bits : ℕ
    bits = (s.totsize + length s.buf) * 8 % 2 ^ 64

    tail : List ℕ
    tail = length_bytes 8 bits

    more : length (s.buf ++ 128 ∷ []) ≡ length s.buf + 1
    more = length-append s.buf (128 ∷ [])

update-nil : (s : Sha) → (update [] s).h ≡ s.h
unfolding update
update-nil s = refl

no_bytes : (xs : List ℕ) → length xs ≡ 0 → xs ≡ []
no_bytes [] h = refl
no_bytes (x ∷ xs) h = absurd (omega arith)

update-blocks :
    (n : ℕ) (xs : List ℕ) (s : Sha)
    → length s.buf ≡ 0
    → length xs ≡ n * 64
    → (update xs s).h ≡ blocks n s.h xs
unfolding blocks transform
update-blocks zero [] s e h = update-nil s
update-blocks zero (x ∷ xs) s e h = absurd (omega arith)
update-blocks (suc n) xs s e h =
    ap (λ (ys : List ℕ). (update ys s).h) (sym (take-append-drop 64 xs))
    ∙ ap (λ (t : Sha). t.h) (update-append (take 64 xs) (drop 64 xs) s)
    ∙ ap (λ (t : Sha). (update (drop 64 xs) t).h)
        (update_full (take 64 xs) s (omega (arith, e)) (omega (arith, e, length-take 64 xs, h)))
    ∙ update-blocks n (drop 64 xs) (transform (record s { buf = s.buf ++ take 64 xs })) refl
        (omega (arith, length-drop 64 xs, h))
    ∙ ap (λ (b : List ℕ). blocks n (compress s.h (b ++ take 64 xs)) (drop 64 xs)) (no_bytes s.buf e)

-- A hash is that of the padded message, block by block, for every message. The bits are counted with
-- wrap-around.
pub sha256-streamed : (message : List ℕ) → sha256 message ≡ streamed message
unfolding streamed padded reset
sha256-streamed message =
    digest-update hashed (omega (arith, over.0))
    ∙ ap (λ (xs : List ℕ). output (update (128 ∷ xs) hashed).h) same_tail
    ∙ ap (λ (t : Sha). output t.h) (sym (update-append message (128 ∷ tail) reset))
    ∙ ap output (update-blocks (length (padded message) / 64) (padded message) reset refl whole)
  where
    hashed : Sha
    hashed = update message reset

    over :
        (length hashed.buf ≡ (0 + length message) % 64)
        × ((hashed.totsize + length hashed.buf) % 2 ^ 64 ≡ (0 + 0 + length message) % 2 ^ 64)
    over = length-update message reset (omega arith)

    bits : ℕ
    bits = length message * 8 % 2 ^ 64

    tail : List ℕ
    tail = zeros ((119 - length message % 64) % 64) ++ length_bytes 8 bits

    same_tail :
        zeros ((119 - length hashed.buf) % 64)
          ++ length_bytes 8 ((hashed.totsize + length hashed.buf) * 8 % 2 ^ 64)
        ≡ tail
    same_tail =
        ap
          (λ (n : ℕ). zeros n ++ length_bytes 8 ((hashed.totsize + length hashed.buf) * 8 % 2 ^ 64))
          (omega (arith, over.0))
        ∙ ap (λ (n : ℕ). zeros ((119 - length message % 64) % 64) ++ length_bytes 8 n)
            (omega (arith, over.1))

    whole : length (padded message) ≡ length (padded message) / 64 * 64
    whole = omega (
      arith,
      length-append message (128 ∷ tail),
      length-append (zeros ((119 - length message % 64) % 64)) (length_bytes 8 bits),
      length-zeros ((119 - length message % 64) % 64),
      length-length_bytes 8 bits,
    )
