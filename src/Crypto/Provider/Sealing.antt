-- ===== src/Crypto/Provider/Sealing.antt =====
-- Encrypt and Decrypt of engine/crypto/chacha.go and ValidateAndNewCipher of engine/crypto/engine.go,
-- with a cipher that accepts keys of 32 bytes and opens what it sealed.
use grimlocker_public.Base.{
  ◌≡◌, refl, ℕ, ◌+◌, ◌↔◌, true, false, not, List, ◌++◌, length, ◌==◌, arith,
}
use grimlocker_public.Base.Outcome.{
  Outcome, ok, >>=-eq-ok, guard-eq-ok, map_err, map_err-eq-ok, fail_if, ◌>>◌, >>-eq-ok,
  fail_if-eq-ok,
}
use grimlocker_public.Gql.Opcodes.{codes}
use grimlocker_public.Crypto.Provider.{
  NewCipher, Cipher, encrypt, decrypt, validate_and_new_cipher, validate_key_length,
}

pub record Opens (new_cipher : NewCipher) : Type 0 where
  pub accepts : (key : List ℕ) → length key ≡ 32 → (c : Cipher) × (new_cipher key ≡ ok c)
  pub adds_tag :
      (key n text aad : List ℕ) (c : Cipher)
      → new_cipher key ≡ ok c
      → length (c.seal n text aad) ≡ length text + 16
  pub opens :
      (key n text aad : List ℕ) (c : Cipher)
      → new_cipher key ≡ ok c
      → length n ≡ 12
      → c.open_sealed n (c.seal n text aad) aad ≡ ok text

-- With a cipher of that kind, a key of 32 bytes and a nonce of 12, encryption succeeds with 16 bytes
-- more than the plaintext, and decryption with the same key, nonce and data gives it back.
pub decrypt-encrypt :
    (new_cipher : NewCipher) (key n text aad : List ℕ)
    → Opens new_cipher
    → length key ≡ 32
    → length n ≡ 12
    → (sealed : List ℕ) × (encrypt new_cipher key n text aad ≡ ok sealed)
      × (length sealed ≡ length text + 16)
      × (decrypt new_cipher key n sealed aad ≡ ok text)
unfolding encrypt decrypt
decrypt-encrypt new_cipher key n text aad h k l =
    let (c, e) = h.accepts key k in
    let right_key : (length key == 32) ≡ true = ground (arith, k) in
    let right_nonce : (length n == 12) ≡ true = ground (arith, l) in
    (
      c.seal n text aad,
      rw (encrypt, right_key, right_nonce, e) refl,
      h.adds_tag key n text aad c e,
      rw (decrypt, right_key, right_nonce, e, h.opens key n text aad c e l) refl,
    )

sizes-eq-ok :
    (key n : List ℕ) (rest : Outcome (List ℕ) (List ℕ)) {b : List ℕ}
    → (fail_if (not (length key == 32)) (codes "chacha: invalid key")
        >> (fail_if (not (length n == 12)) (codes "chacha: invalid nonce") >> rest))
      ≡ ok b
    → (length key ≡ 32) × (length n ≡ 12) × (rest ≡ ok b)
sizes-eq-ok key n rest e =
    let (right_key, checked) =
      guard-eq-ok (not (length key == 32)) (codes "chacha: invalid key")
        (fail_if (not (length n == 12)) (codes "chacha: invalid nonce") >> rest) e in
    let (right_nonce, last) =
      guard-eq-ok (not (length n == 12)) (codes "chacha: invalid nonce") rest checked in
    (ground (arith, right_key), ground (arith, right_nonce), last)

-- With a cipher that opens what it sealed, encryption succeeds just when the key has 32 bytes and the
-- nonce 12.
pub encrypt_iff :
    (new_cipher : NewCipher) (key n text aad : List ℕ)
    → Opens new_cipher
    → ((sealed : List ℕ) × (encrypt new_cipher key n text aad ≡ ok sealed))
      ↔ ((length key ≡ 32) × (length n ≡ 12))
unfolding encrypt
encrypt_iff new_cipher key n text aad h = (
  λ (sealed, e). let (k, l, _) = sizes-eq-ok key n _ e in (k, l),
  λ (k, l). let (sealed, e, _, _) = decrypt-encrypt new_cipher key n text aad h k l in (sealed, e),
)

-- Whatever is decrypted, the key had 32 bytes, the nonce 12, and the cipher of the key opened the
-- ciphertext to it.
pub decrypt-eq-ok :
    (new_cipher : NewCipher) (key n sealed aad text : List ℕ)
    → decrypt new_cipher key n sealed aad ≡ ok text
    → (length key ≡ 32)
      × (length n ≡ 12)
      × ((c : Cipher) × (new_cipher key ≡ ok c) × (c.open_sealed n sealed aad ≡ ok text))
unfolding decrypt
decrypt-eq-ok new_cipher key n sealed aad text e =
    let (k, l, last) = sizes-eq-ok key n _ e in
    let (c, made, opened) =
      >>=-eq-ok (map_err (λ why. codes "chacha: create cipher: " ++ why) (new_cipher key))
        (λ cipher.
          map_err (λ why. codes "chacha: authentication failed") (cipher.open_sealed n sealed aad))
        last in
    (
      k,
      l,
      (
        c,
        map_err-eq-ok _ (new_cipher key) made,
        map_err-eq-ok _ (c.open_sealed n sealed aad) opened,
      ),
    )

-- With a cipher that accepts keys of 32 bytes, a checked cipher is made just for these.
pub validate_and_new_cipher_iff :
    (new_cipher : NewCipher) (key : List ℕ)
    → Opens new_cipher
    → ((c : Cipher) × (validate_and_new_cipher new_cipher key ≡ ok c)) ↔ (length key ≡ 32)
unfolding validate_and_new_cipher validate_key_length
validate_and_new_cipher_iff new_cipher key h = (
  λ (c, e).
      let (checked, _) = >>-eq-ok (validate_key_length key) _ e in
      let (_, rest) = >>-eq-ok (fail_if (length key == 0) _) _ checked in
      let right = fail_if-eq-ok (not (length key == 32)) _ rest in ground (arith, right),
  λ k.
      let (c, e) = h.accepts key k in
      let some_key : (length key == 0) ≡ false = ground (arith, k) in
      let right : (length key == 32) ≡ true = ground (arith, k) in
      (c, rw (validate_and_new_cipher, validate_key_length, some_key, right, e) refl),
)
