-- ===== src/Tools/Tests.antt =====
-- A key pair from simple encodings, and the theorem at it.
use grimlocker_public.Base.{◌≡◌, refl, ℕ, suc, List, [], ◌∷◌, ◌++◌}
use grimlocker_public.Base.Outcome.{ok}
use grimlocker_public.Gql.Opcodes.{codes}
use grimlocker_public.Tools.SshGen.{
  Ssh, SshKeyPair, add_comment, marshal_ed25519_private_key,
  marshal_ed25519_private_key_with_passphrase, generate_ed25519_pair,
}
use grimlocker_public.Tools.SshGen.Pair.{newlines, newlines-generate_ed25519_pair}

-- Keys are numbers, and a PEM block is its text.
abbrev plain_ssh : Ssh ℕ ℕ ℕ (List ℕ)
plain_ssh = record {
  new_public_key = λ key. ok key;
  marshal_authorized_key = λ key. codes "ssh-ed25519 AAAA" ++ 10 ∷ [];
  fingerprint_sha256 = λ key. codes "SHA256:" ++ key ∷ [];
  marshal_private_key = λ key comment. ok (key ∷ comment);
  marshal_private_key_with_passphrase = λ key comment passphrase. ok (key ∷ passphrase);
  encode_to_memory = λ block. block;
}

-- A comment of two lines.
abbrev two_lines : List ℕ
two_lines = codes "laptop" ++ 10 ∷ codes "ssh-ed25519 BBBB"

abbrev made : SshKeyPair
made = record {
  public_key = codes "ssh-ed25519 AAAA laptop" ++ 10 ∷ (codes "ssh-ed25519 BBBB" ++ 10 ∷ []);
  private_key_pem = 9 ∷ codes "secret";
  fingerprint = codes "SHA256:" ++ 65 ∷ [];
  comment = two_lines;
  entry_id = [];
}

pair_made : generate_ed25519_pair plain_ssh (ok (65, 9)) two_lines (codes "secret") ≡ ok made
unfolding generate_ed25519_pair add_comment marshal_ed25519_private_key
    marshal_ed25519_private_key_with_passphrase
pair_made = refl

newlines-generate_ed25519_pair_example : newlines (made.public_key) ≡ suc (newlines two_lines)
newlines-generate_ed25519_pair_example =
    newlines-generate_ed25519_pair plain_ssh (ok (65, 9)) two_lines (codes "secret") made
      (λ key. (codes "ssh-ed25519 AAAA", refl, refl)) pair_made
