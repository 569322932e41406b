-- ===== src/Crypto/ProviderTests.antt =====
-- Keys, ciphers and an entropy file from simple functions, and the theorems at them.
use grimlocker_public.Base.{
  ◌≡◌, refl, ap, subst, ◌∙◌, ℕ, suc, ◌+◌, ◌-◌, List, [], ◌∷◌, ◌++◌, Option, some, length, replicate,
  take, arith, length-replicate, length-append, take-length_append,
}
use grimlocker_public.Base.Int.{pos}
use grimlocker_public.Base.Outcome.{Outcome, ok}
use grimlocker_public.Bridge.GoFallback.{Hkdf, Expands}
use grimlocker_public.Bridge.Default.{default_bridge}
use grimlocker_public.Crypto.Coordinate.{derive_coordinate_offsets, take_offsets}
use grimlocker_public.Crypto.Entropy.{generated, total_size, generate_entropy_file_with_progress}
use grimlocker_public.Crypto.Entropy.Contents.{
  Source, Gives, file_disk, draws, marks, generate_entropy_file_lem,
}
use grimlocker_public.Crypto.Provider.{
  Cipher, NewCipher, IdKey, KdfOptions, Provider, derive_coordinate, derive_argon2id, new_nonce,
  encrypt, decrypt,
}
use grimlocker_public.Crypto.Provider.Sealing.{Opens}
use grimlocker_public.Crypto.Provider.Keys.{
  Hashes, derive_coordinate-offsets, decrypt-encrypt_password,
}

-- A cipher that appends a tag of zeros.
abbrev tags : Cipher
tags = record {
  seal = λ n plain aad. plain ++ replicate 16 0;
  open_sealed = λ n sealed aad. ok (take (length sealed - 16) sealed);
}

abbrev tagging : NewCipher
tagging key = ok tags

only_tags : (c : Cipher) → ◌≡◌ {A = Outcome (List ℕ) Cipher} (ok tags) (ok c) → tags ≡ c
only_tags c e = cc

length-tagged : (plain : List ℕ) → length (plain ++ replicate 16 0) ≡ length plain + 16
length-tagged plain = length-append plain (replicate 16 0)

untagged : (plain : List ℕ) → tags.open_sealed [] (tags.seal [] plain []) [] ≡ ok plain
untagged plain =
    let size : length (plain ++ replicate 16 0) - 16 ≡ length plain =
      omega (arith, length-tagged plain) in
    ap (λ k. ok (take k (plain ++ replicate 16 0))) size
    ∙ ap ok (take-length_append plain (replicate 16 0))

tagging-Opens : Opens tagging
tagging-Opens = record {
  accepts = λ key k. (tags, refl);
  adds_tag = λ key n plain aad c e.
      subst (λ d. length (d.seal n plain aad) ≡ length plain + 16) (only_tags c e)
        (length-tagged plain);
  opens = λ key n plain aad c e l.
      subst (λ d. d.open_sealed n (d.seal n plain aad) aad ≡ ok plain) (only_tags c e)
        (untagged plain);
}

abbrev sevens : Hkdf
sevens secret salt info n = ok (replicate n 7)

sevens-Expands : Expands sevens
sevens-Expands secret salt info n h = (replicate n 7, refl, length-replicate n 7)

abbrev nines : IdKey
nines password salt time memory threads n = some (replicate n 9)

nines-Hashes : Hashes nines
nines-Hashes password salt time memory threads n t p = (replicate n 9, refl, length-replicate n 9)

abbrev twelve : List ℕ
twelve = replicate 12 5

abbrev ones : List ℕ → Option (List ℕ)
ones hash = some (replicate 128 1)

-- 0x01010101 is 1 modulo 3.
offsets_of_ones : derive_coordinate_offsets ones [] (pos 3) ≡ some (replicate 32 (pos 1))
unfolding derive_coordinate_offsets take_offsets
offsets_of_ones = refl

abbrev file : List ℕ
file = 7 ∷ 8 ∷ 9 ∷ []

abbrev go_provider : Provider ℕ
go_provider = record { rb = default_bridge (λ bs. bs) sevens }

derive_coordinate-offsets_example :
    (key : List ℕ) × (derive_coordinate go_provider file (replicate 32 (pos 1)) 0 ≡ (ok key, 0))
    × (length key ≡ 32)
    × ((sealed : List ℕ) × (encrypt tagging key twelve (1 ∷ 2 ∷ []) [] ≡ ok sealed)
        × (decrypt tagging key twelve sealed [] ≡ ok (1 ∷ 2 ∷ [])))
derive_coordinate-offsets_example =
    derive_coordinate-offsets ones (λ bs. bs) sevens tagging [] file twelve (1 ∷ 2 ∷ []) []
      (replicate 32 (pos 1)) 0 sevens-Expands tagging-Opens refl offsets_of_ones

abbrev salted : KdfOptions
salted = record { time = 0; memory = 0; threads = 0; key_len = 0; salt = 1 ∷ [] }

decrypt-encrypt_password_example :
    (key : List ℕ) × (derive_argon2id nines (3 ∷ 4 ∷ []) salted ≡ some (ok key))
    × ((n : List ℕ) × (new_nonce (ok twelve) ≡ ok n)
        × ((sealed : List ℕ) × (encrypt tagging key n (1 ∷ 2 ∷ []) [] ≡ ok sealed)
            × (decrypt tagging key n sealed [] ≡ ok (1 ∷ 2 ∷ []))))
decrypt-encrypt_password_example =
    decrypt-encrypt_password nines tagging (3 ∷ 4 ∷ []) (1 ∷ 2 ∷ []) [] twelve salted nines-Hashes
      tagging-Opens (omega arith) refl refl

-- A random source that counts its readings.
abbrev counting : Source ℕ
counting n r = (ok (replicate n r), suc r)

counting-Gives : Gives counting
counting-Gives n r = (replicate n r, refl, length-replicate n r)

generate_entropy_file_lem_example :
    let after = generate_entropy_file_with_progress (file_disk counting) [] file 1 in
    (after.result ≡ generated)
    × (after.disk ≡ draws counting 32 1)
    × (length after.disk ≡ total_size)
    × (after.calls ≡ marks 0 32)
generate_entropy_file_lem_example = generate_entropy_file_lem counting [] file 1 counting-Gives
