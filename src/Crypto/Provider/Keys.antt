-- ===== src/Crypto/Provider/Keys.antt =====
-- The keys that engine/crypto derives: their lengths, and that they encrypt. The hashes give as many
-- bytes as they are asked for.
use Prim.Native.Nat.{◌≤◌}
use grimlocker_public.Base.{
  ◌≡◌, refl, ap, sym, subst, ◌∙◌, ℕ, zero, suc, ◌<◌, ◌⊎◌, inl, inr, List, [], ◌∷◌, Option, none,
  some, length, drop, All, ◌==◌, if◌then◌else◌, arith, Bool-cases, Option-cases, nil_of_length,
  lt→ltb,
}
use grimlocker_public.Base.Int.{ℤ, pos}
use grimlocker_public.Base.Outcome.{ok, err}
use grimlocker_public.Gql.Opcodes.{codes}
use grimlocker_public.Bridge.GoFallback.{Hkdf, Expands}
use grimlocker_public.Bridge.GoFallback.Coordinate.{Inside, go_derive_coordinate-Inside}
use grimlocker_public.Bridge.Default.{default_bridge}
use grimlocker_public.Crypto.Coordinate.{derive_coordinate_offsets, take_offsets}
use grimlocker_public.Crypto.Provider.{
  derive_coordinate, IdKey, KdfOptions, derive_argon2id, derive_hkdf, NewCipher, encrypt, decrypt,
  new_nonce, default_if_zero,
}
use grimlocker_public.Crypto.Provider.Sealing.{Opens, decrypt-encrypt}

-- IDKey panics for a time or a parallelism of 0, and gives the number of bytes asked for.
abbrev pub Hashes : IdKey → Type 0
Hashes id_key =
    (password salt : List ℕ) (time memory threads n : ℕ)
    → 0 < time
    → 0 < threads
    → (key : List ℕ) × (id_key password salt time memory threads n ≡ some key) × (length key ≡ n)

default_if_zero-positive : (n d : ℕ) → 0 < d → 0 < default_if_zero n d
default_if_zero-positive n d h = ground arith

-- With a hash of that kind, deriving a key from a password never panics: without a salt it fails, and with
-- one it gives a key of the length asked for, which is 32 bytes when none is asked for.
pub derive_argon2id_lem :
    (id_key : IdKey) (password : List ℕ) (opts : KdfOptions)
    → Hashes id_key
    → ((opts.salt ≡ [])
        × (derive_argon2id id_key password opts ≡ some (err (codes "argon2id: salt is required"))))
      ⊎ ((0 < length opts.salt)
          × ((key : List ℕ) × (derive_argon2id id_key password opts ≡ some (ok key))
              × (length key ≡ (if opts.key_len == 0 then 32 else opts.key_len))))
unfolding derive_argon2id
derive_argon2id_lem id_key password opts h = elim (Bool-cases (length opts.salt == 0)) [
  | inl empty ↦
      inl (nil_of_length opts.salt (ground (arith, empty)), rw (derive_argon2id, empty) refl)
  | inr given ↦
      let (key, e, l) =
        h password opts.salt (default_if_zero opts.time 4) (default_if_zero opts.memory 131072)
          (default_if_zero opts.threads 2) (default_if_zero opts.key_len 32)
          (default_if_zero-positive opts.time 4 (omega arith))
          (default_if_zero-positive opts.threads 2 (omega arith)) in
      inr (ground (arith, given), (key, rw (derive_argon2id, given, e) refl, l))
]

-- A key that is derived for a length from 1 to 8160 has that length.
pub derive_hkdf_lem :
    (hkdf : Hkdf) (secret salt info : List ℕ) (n : ℕ)
    → Expands hkdf
    → suc n ≤ 8160
    → (key : List ℕ) × (derive_hkdf hkdf secret salt info (pos (suc n)) ≡ ok key)
      × (length key ≡ suc n)
unfolding derive_hkdf
derive_hkdf_lem hkdf secret salt info n h le =
    let (key, e, l) = h secret salt info (suc n) le in (key, rw e refl, l)

take_offsets-Inside :
    (n : ℕ) (buf file : List ℕ) (size : ℕ)
    → length file ≡ suc size
    → All (Inside file) (take_offsets n buf (suc size))
unfolding take_offsets
take_offsets-Inside zero buf file size h = tt
take_offsets-Inside (suc n) buf file size h =
    (lt→ltb _ _ (omega arith), take_offsets-Inside n (drop 4 buf) file size h)

derive_coordinate_offsets-Inside :
    (expand : List ℕ → Option (List ℕ)) (hash file : List ℕ) (offs : List ℤ)
    → derive_coordinate_offsets expand hash (pos (length file)) ≡ some offs
    → All (Inside file) offs
unfolding derive_coordinate_offsets
derive_coordinate_offsets-Inside expand hash [] offs e = absurd cc
derive_coordinate_offsets-Inside expand hash (x ∷ xs) offs e = elim (Option-cases (expand hash)) [
  | inl fails ↦
      let clash : none ≡ some offs = sym (rw (fails, derive_coordinate_offsets) refl) ∙ e in
      absurd cc
  | inr (buf, reads) ↦
      let taken : some (take_offsets 32 buf (length (x ∷ xs))) ≡ some offs =
        sym (rw (reads, derive_coordinate_offsets) refl) ∙ e in
      let same : take_offsets 32 buf (length (x ∷ xs)) ≡ offs = cc in
      subst (All (Inside (x ∷ xs))) same (take_offsets-Inside 32 buf (x ∷ xs) (length xs) refl)
]

-- Over the bridge without an enclave, with an HKDF that gives the bytes asked for and a cipher that
-- opens what it sealed: when offsets were derived for the size of a file, the coordinate of the file
-- at them is a key of 32 bytes, and what is encrypted with it and a nonce of 12 bytes is decrypted
-- again.
pub derive_coordinate-offsets :
    {W : Type 0} (expand : List ℕ → Option (List ℕ)) (sha256 : List ℕ → List ℕ) (hkdf : Hkdf)
    (new_cipher : NewCipher) (hash file n text aad : List ℕ) (offs : List ℤ) (w : W)
    → Expands hkdf
    → Opens new_cipher
    → length n ≡ 12
    → derive_coordinate_offsets expand hash (pos (length file)) ≡ some offs
    → (key : List ℕ) × (derive_coordinate (record { rb = default_bridge sha256 hkdf }) file offs w
        ≡ (ok key, w))
      × (length key ≡ 32)
      × ((sealed : List ℕ) × (encrypt new_cipher key n text aad ≡ ok sealed)
          × (decrypt new_cipher key n sealed aad ≡ ok text))
unfolding derive_coordinate
derive_coordinate-offsets expand sha256 hkdf new_cipher hash file n text aad offs w h k l e =
    let inside = derive_coordinate_offsets-Inside expand hash file offs e in
    let (key, made, size, _) = go_derive_coordinate-Inside sha256 hkdf file offs h inside in
    let (sealed, enc, _, dec) = decrypt-encrypt new_cipher key n text aad k size l in
    (key, ap (λ r. (r, w)) made, size, (sealed, enc, dec))

-- With a hash and a cipher of those kinds, salted options that ask for 32 bytes or for none in
-- particular, and 12 bytes from the random source: the derivation of the key, the nonce and the
-- encryption all succeed, and decryption gives the plaintext back.
pub decrypt-encrypt_password :
    (id_key : IdKey) (new_cipher : NewCipher) (password text aad random : List ℕ)
    (opts : KdfOptions)
    → Hashes id_key
    → Opens new_cipher
    → 0 < length opts.salt
    → (if opts.key_len == 0 then 32 else opts.key_len) ≡ 32
    → length random ≡ 12
    → (key : List ℕ) × (derive_argon2id id_key password opts ≡ some (ok key))
      × ((n : List ℕ) × (new_nonce (ok random) ≡ ok n)
          × ((sealed : List ℕ) × (encrypt new_cipher key n text aad ≡ ok sealed)
              × (decrypt new_cipher key n sealed aad ≡ ok text)))
unfolding new_nonce
decrypt-encrypt_password id_key new_cipher password text aad random opts h k salted len l =
    elim (derive_argon2id_lem id_key password opts h) [
      | inl (empty, _) ↦
          let none_there : length opts.salt ≡ 0 = ap length empty in absurd (omega arith)
      | inr (_, (key, made, size)) ↦
          let (sealed, enc, _, dec) =
            decrypt-encrypt new_cipher key random text aad k (size ∙ len) l in
          (key, made, (random, refl, (sealed, enc, dec)))
    ]
