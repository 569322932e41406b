-- ===== src/Tools/SshGen.antt =====
-- engine/tools/ssh_gen.go. The keys, their encodings and the random bytes are those of Go's libraries. An
-- error is its text.
pub mod Pair
pub mod Alphabet
use grimlocker_public.Base.{
  ℕ, ◌-◌, ◌%◌, ◌&&◌, Bool, true, false, not, List, [], ◌∷◌, ◌++◌, Option, none, some, length,
  get_or, take, map, bytes_eq, leb, ltb, ◌==◌, if◌then◌else◌,
}
use grimlocker_public.Base.Int.{ℤ, pos, negsuc}
use grimlocker_public.Base.Outcome.{Outcome, ok, err, ◌>>=◌, map_err}
use grimlocker_public.Gql.Opcodes.{codes}

-- crypto/ed25519, golang.org/x/crypto/ssh and encoding/pem, over public keys, private keys, SSH
-- public keys and PEM blocks.
pub record Ssh (P K S B : Type 0) : Type 0 where
  pub new_public_key : P → Outcome (List ℕ) S
  pub marshal_authorized_key : S → List ℕ
  pub fingerprint_sha256 : S → List ℕ
  pub marshal_private_key : K → List ℕ → Outcome (List ℕ) B
  pub marshal_private_key_with_passphrase : K → List ℕ → List ℕ → Outcome (List ℕ) B
  pub encode_to_memory : B → List ℕ

pub record SshKeyPair : Type 0 where
  pub public_key : List ℕ
  pub private_key_pem : List ℕ
  pub fingerprint : List ℕ
  pub comment : List ℕ
  pub entry_id : List ℕ

-- The last byte of a line is a newline, 10.
abbrev pub ends_line : List ℕ → Bool
ends_line line = ltb 0 (length line) && (get_or line (length line - 1) 0 == 10)

-- The public key line with the comment, after a space.
unfoldable pub add_comment : List ℕ → List ℕ → List ℕ
add_comment [] line = line
add_comment (c ∷ comment) line =
    let stripped = if ends_line line then take (length line - 1) line else line in
    stripped ++ 32 ∷ ((c ∷ comment) ++ 10 ∷ [])

module _ {P K S B : Type 0} where
  unfoldable pub marshal_ed25519_private_key : Ssh P K S B → K → List ℕ → Outcome (List ℕ) (List ℕ)
  marshal_ed25519_private_key ssh key comment =
      map_err (λ why. codes "MarshalPrivateKey: " ++ why) (ssh.marshal_private_key key comment)
      >>= λ block. ok (ssh.encode_to_memory block)

  unfoldable pub marshal_ed25519_private_key_with_passphrase :
      Ssh P K S B → K → List ℕ → List ℕ → Outcome (List ℕ) (List ℕ)
  marshal_ed25519_private_key_with_passphrase ssh key comment passphrase =
      map_err (λ why. codes "MarshalPrivateKeyWithPassphrase: " ++ why)
        (ssh.marshal_private_key_with_passphrase key comment passphrase)
      >>= λ block. ok (ssh.encode_to_memory block)

  -- The private key, encrypted when there is a passphrase.
  abbrev pub private_pem : Ssh P K S B → K → List ℕ → List ℕ → Outcome (List ℕ) (List ℕ)
  private_pem ssh key comment [] = marshal_ed25519_private_key ssh key comment
  private_pem ssh key comment (c ∷ passphrase) =
      marshal_ed25519_private_key_with_passphrase ssh key comment (c ∷ passphrase)

  abbrev pub pair_of : Ssh P K S B → List ℕ → S → List ℕ → SshKeyPair
  pair_of ssh comment ssh_pub priv_pem = record {
    public_key = add_comment comment (ssh.marshal_authorized_key ssh_pub);
    private_key_pem = priv_pem;
    fingerprint = ssh.fingerprint_sha256 ssh_pub;
    comment = comment;
    entry_id = [];
  }

  -- GenerateEd25519Pair, with the keys that GenerateKey gives.
  unfoldable pub generate_ed25519_pair :
      Ssh P K S B → Outcome (List ℕ) (P × K) → List ℕ → List ℕ → Outcome (List ℕ) SshKeyPair
  generate_ed25519_pair ssh generated comment passphrase =
      map_err (λ why. codes "generate Ed25519 key: " ++ why) generated >>= λ keys.
      map_err (λ why. codes "marshal SSH public key: " ++ why) (ssh.new_public_key keys.0)
      >>= λ ssh_pub.
          map_err (λ why. codes "marshal private key: " ++ why)
            (private_pem ssh keys.1 comment passphrase)
          >>= λ priv_pem. ok (pair_of ssh comment ssh_pub priv_pem)

-- `chars`
abbrev pub chars : List ℕ
chars = codes "ABCDEFGHIJKLMNOPQRSTUVWXYZabcdefghijklmnopqrstuvwxyz0123456789!@#$%^&*()-_=+"

abbrev pub char_of : ℕ → ℕ
char_of b = get_or chars (b % length chars) 0

-- generateSecurePassphrase, where the random source is given the length; `make` panics for a negative
-- one, which is `none`.
unfoldable pub generate_secure_passphrase :
    (ℕ → Outcome (List ℕ) (List ℕ)) → ℤ → Option (Outcome (List ℕ) (List ℕ))
generate_secure_passphrase read (negsuc _) = none
generate_secure_passphrase read (pos n) =
    some (map_err (λ why. codes "passphrase: " ++ why) (read n) >>= λ b. ok (map char_of b))
