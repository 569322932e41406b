-- ===== src/Tools/SshGen/Pair.antt =====
-- The key pairs of engine/tools/ssh_gen.go.
use grimlocker_public.Base.{
  ◌≡◌, refl, ap, sym, ◌∙◌, ℕ, suc, ◌+◌, ◌-◌, true, List, [], ◌∷◌, ◌++◌, length, get_or, take, ltb,
  ◌==◌, if◌then◌else◌, arith, length-append, get_or-snoc, take-length_append, ==_iff,
}
use grimlocker_public.Base.Outcome.{Outcome, ok, three-eq-ok, map_err, map_err-eq-ok}
use grimlocker_public.Gql.Opcodes.{codes}
use grimlocker_public.Tools.SshGen.{
  Ssh, SshKeyPair, add_comment, pair_of, private_pem, generate_ed25519_pair,
}

-- The number of newlines of a text.
abbrev pub newlines : List ℕ → ℕ
newlines [] = 0
newlines (c ∷ cs) = let rest = newlines cs in if c == 10 then suc rest else rest

newlines-append : (xs ys : List ℕ) → newlines (xs ++ ys) ≡ newlines xs + newlines ys
newlines-append [] ys = omega arith
newlines-append (x ∷ xs) ys = ground (arith, newlines-append xs ys)

-- A space and the comment, or nothing for no comment.
abbrev pub after_key : List ℕ → List ℕ
after_key [] = []
after_key (c ∷ comment) = 32 ∷ c ∷ comment

add_comment_lem :
    (comment body : List ℕ)
    → add_comment comment (body ++ 10 ∷ []) ≡ body ++ (after_key comment ++ 10 ∷ [])
unfolding add_comment
add_comment_lem [] body = refl
add_comment_lem (c ∷ comment) body =
    let line = body ++ 10 ∷ [] in
    let size : length line ≡ suc (length body) = omega (arith, length-append {0} body (10 ∷ [])) in
    let at_end : length line - 1 ≡ length body = omega arith in
    let some_bytes : ltb 0 (length line) ≡ true = ground (arith, size) in
    let newline : (get_or line (length line - 1) 0 == 10) ≡ true =
      (==_iff _ 10).1 (ap (λ i. get_or line i 0) at_end ∙ get_or-snoc body 10 0) in
    let stripped : take (length line - 1) line ≡ body =
      ap (λ i. take i line) at_end ∙ take-length_append body (10 ∷ []) in
    rw (some_bytes, newline, stripped) refl

newlines-after_key : (comment : List ℕ) → newlines (after_key comment) ≡ newlines comment
newlines-after_key [] = refl
newlines-after_key (c ∷ comment) = refl

-- MarshalAuthorizedKey gives a line that ends with its only newline.
abbrev pub IsLines : {P K S B : Type 0} → Ssh P K S B → Type 0
IsLines {S} ssh =
    (key : S)
    → (body : List ℕ) × (ssh.marshal_authorized_key key ≡ body ++ 10 ∷ []) × (newlines body ≡ 0)

module _ {P K S B : Type 0} where
  -- The pair that is returned comes from one pair of generated keys: the line of the public key and
  -- the fingerprint from the public one, and the PEM block from the private one, encrypted just when
  -- there is a passphrase; the comment is the one given.
  pub generate_ed25519_pair-eq-ok :
      (ssh : Ssh P K S B) (generated : Outcome (List ℕ) (P × K)) (comment passphrase : List ℕ)
      (pair : SshKeyPair)
      → generate_ed25519_pair ssh generated comment passphrase ≡ ok pair
      → (keys : P × K) × (generated ≡ ok keys)
        × ((key : S) × (ssh.new_public_key keys.0 ≡ ok key)
            × (pair.public_key ≡ add_comment comment (ssh.marshal_authorized_key key))
            × (pair.fingerprint ≡ ssh.fingerprint_sha256 key)
            × (pair.comment ≡ comment)
            × (private_pem ssh keys.1 comment passphrase ≡ ok pair.private_key_pem))
  unfolding generate_ed25519_pair
  generate_ed25519_pair-eq-ok ssh generated comment passphrase pair e =
      let (keys, key, pem, (from_keys, from_key, from_pem, made)) =
        three-eq-ok (map_err (λ why. codes "generate Ed25519 key: " ++ why) generated)
          (λ keys.
            map_err (λ why. codes "marshal SSH public key: " ++ why) (ssh.new_public_key keys.0))
          (λ keys.
            map_err (λ why. codes "marshal private key: " ++ why)
              (private_pem ssh keys.1 comment passphrase))
          (pair_of ssh comment) e in
      (
        keys,
        map_err-eq-ok _ generated from_keys,
        (
          key,
          map_err-eq-ok _ (ssh.new_public_key keys.0) from_key,
          ap (λ p. p.public_key) (sym made),
          ap (λ p. p.fingerprint) (sym made),
          ap (λ p. p.comment) (sym made),
          map_err-eq-ok _ (private_pem ssh keys.1 comment passphrase) from_pem
              ∙ ap (λ p. ok (p.private_key_pem)) made,
        ),
      )

  -- With an encoding of public keys as single lines, the public key that is returned has one newline,
  -- and one more for each in the comment.
  pub newlines-generate_ed25519_pair :
      (ssh : Ssh P K S B) (generated : Outcome (List ℕ) (P × K)) (comment passphrase : List ℕ)
      (pair : SshKeyPair)
      → IsLines ssh
      → generate_ed25519_pair ssh generated comment passphrase ≡ ok pair
      → newlines pair.public_key ≡ suc (newlines comment)
  newlines-generate_ed25519_pair ssh generated comment passphrase pair lines e =
      let (_, _, (key, _, line, _, _, _)) =
        generate_ed25519_pair-eq-ok ssh generated comment passphrase pair e in
      let (body, whole, single) = lines key in
      ap newlines (line ∙ ap (add_comment comment) whole ∙ add_comment_lem comment body)
      ∙ newlines-append body (after_key comment ++ 10 ∷ [])
      ∙ omega
          (arith, single, newlines-append (after_key comment) (10 ∷ []), newlines-after_key comment)
