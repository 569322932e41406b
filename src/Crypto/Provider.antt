-- ===== src/Crypto/Provider.antt =====
-- The Provider of engine/crypto: provider.go, chacha.go, engine.go, argon.go, hkdf.go and the options of
-- interface.go. The ciphers, hashes and random bytes are those of Go's libraries. An error is its text.
pub mod Sealing
pub mod Keys
use grimlocker_public.Base.{
  ℕ, zero, suc, ◌-◌, ◌≡◌, not, List, [], ◌∷◌, ◌++◌, Option, none, some, length, take, replicate,
  ◌==◌, if◌then◌else◌,
}
use grimlocker_public.Base.Int.{ℤ, pos, negsuc}
use grimlocker_public.Base.Decimal.{decimal}
use grimlocker_public.Base.Outcome.{Outcome, ok, err, ◌>>=◌, ◌>>◌, fail_if, map_err}
use grimlocker_public.Gql.Opcodes.{codes}
use grimlocker_public.Bridge.GoFallback.{Hkdf}
use grimlocker_public.Bridge.Default.{RustBridge}

pub record Provider (W : Type 0) : Type 0 where
  pub rb : RustBridge W

module _ {W : Type 0} where
  -- SecureZero
  unfoldable pub secure_zero : Provider W → List ℕ → W → List ℕ × W
  secure_zero p b w = p.rb.secure_zero b w

  -- DeriveCoordinate
  unfoldable pub derive_coordinate :
      Provider W → List ℕ → List ℤ → W → Outcome (List ℕ) (List ℕ) × W
  derive_coordinate p entropy offsets w = p.rb.derive_coordinate entropy offsets w

  -- DeriveWorkspaceKey
  unfoldable pub derive_workspace_key :
      Provider W → List ℕ → List ℕ → W → Outcome (List ℕ) (List ℕ) × W
  derive_workspace_key p master_key id w = p.rb.derive_workspace_key master_key id w

-- A cipher with its key.
pub record Cipher : Type 0 where
  pub seal : List ℕ → List ℕ → List ℕ → List ℕ
  pub open_sealed : List ℕ → List ℕ → List ℕ → Outcome (List ℕ) (List ℕ)

-- `chacha20poly1305.New`
abbrev pub NewCipher : Type 0
NewCipher = List ℕ → Outcome (List ℕ) Cipher

unfoldable pub encrypt : NewCipher → List ℕ → List ℕ → List ℕ → List ℕ → Outcome (List ℕ) (List ℕ)
encrypt new_cipher key nonce plaintext aad =
    fail_if (not (length key == 32)) (codes "chacha: invalid key")
    >> (fail_if (not (length nonce == 12)) (codes "chacha: invalid nonce")
        >> (map_err (λ why. codes "chacha: create cipher: " ++ why) (new_cipher key) >>= λ cipher.
            ok (cipher.seal nonce plaintext aad)))

unfoldable pub decrypt : NewCipher → List ℕ → List ℕ → List ℕ → List ℕ → Outcome (List ℕ) (List ℕ)
decrypt new_cipher key nonce ciphertext aad =
    fail_if (not (length key == 32)) (codes "chacha: invalid key")
    >> (fail_if (not (length nonce == 12)) (codes "chacha: invalid nonce")
        >> (map_err (λ why. codes "chacha: create cipher: " ++ why) (new_cipher key) >>= λ cipher.
            map_err (λ why. codes "chacha: authentication failed")
              (cipher.open_sealed nonce ciphertext aad)))

-- NewNonce, with what the random source gives for 12 bytes.
unfoldable pub new_nonce : Outcome (List ℕ) (List ℕ) → Outcome (List ℕ) (List ℕ)
new_nonce random = map_err (λ why. codes "nonce: " ++ why) random

-- KeyLen
abbrev pub key_len : ℕ
key_len = 32

unfoldable pub validate_key_length : List ℕ → Outcome (List ℕ) (Unit {0})
validate_key_length key =
    fail_if (length key == 0) (codes "crypto/engine: key is empty (vault may be locked)")
    >> fail_if (not (length key == key_len)) (
        codes "crypto/engine: invalid key length "
        ++ (decimal (length key) ++ (codes " (want " ++ (decimal key_len ++ codes ")"))))

unfoldable pub validate_and_new_cipher : NewCipher → List ℕ → Outcome (List ℕ) Cipher
validate_and_new_cipher new_cipher key =
    validate_key_length key
    >> map_err (λ why. codes "crypto/engine: cipher creation failed: " ++ why) (new_cipher key)

-- KDFOptions
pub record KdfOptions : Type 0 where
  pub time : ℕ
  pub memory : ℕ
  pub threads : ℕ
  pub key_len : ℕ
  pub salt : List ℕ

abbrev pub default_kdf_options : KdfOptions
default_kdf_options = record { time = 4; memory = 131072; threads = 2; key_len = 32; salt = [] }

-- `argon2.IDKey`, of a password, a salt, the time, memory, threads and the length: `none` is a panic.
abbrev pub IdKey : Type 0
IdKey = List ℕ → List ℕ → ℕ → ℕ → ℕ → ℕ → Option (List ℕ)

abbrev pub default_if_zero : ℕ → ℕ → ℕ
default_if_zero n d = if n == 0 then d else n

unfoldable pub derive_argon2id : IdKey → List ℕ → KdfOptions → Option (Outcome (List ℕ) (List ℕ))
derive_argon2id id_key password opts =
    let key =
      id_key password opts.salt (default_if_zero opts.time default_kdf_options.time)
        (default_if_zero opts.memory default_kdf_options.memory)
        (default_if_zero opts.threads default_kdf_options.threads)
        (default_if_zero opts.key_len 32) in
    let result : Option (Outcome (List ℕ) (List ℕ)) = elim key [
      | none ↦ none
      | some k ↦ some (ok k)
    ] in
    if length opts.salt == 0 then some (err (codes "argon2id: salt is required")) else result

-- HMACKey, with the HMAC of a key and a message: `copy` into an array of 32 bytes.
unfoldable pub hmac_key : (List ℕ → List ℕ → List ℕ) → List ℕ → List ℕ
hmac_key hmac mvk =
    let result = hmac mvk (codes "grimlocker-hmac-v1") in
    take 32 result ++ replicate (32 - length result) 0

unfoldable pub derive_hkdf : Hkdf → List ℕ → List ℕ → List ℕ → ℤ → Outcome (List ℕ) (List ℕ)
derive_hkdf hkdf secret salt info (negsuc _) = err (codes "hkdf: keyLen must be > 0")
derive_hkdf hkdf secret salt info (pos zero) = err (codes "hkdf: keyLen must be > 0")
derive_hkdf hkdf secret salt info (pos (suc n)) =
    map_err (λ why. codes "hkdf: expand: " ++ why) (hkdf secret salt info (suc n))
