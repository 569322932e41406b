-- ===== src/Crypto/PqcReady.antt =====
-- engine/crypto/pqc_ready.go: the report on post-quantum algorithms, and the provider that is none. An
-- error is its text.
use grimlocker_public.Base.{ℕ, Bool, false, List, [], ◌∷◌, ◌++◌}
use grimlocker_public.Base.Outcome.{Outcome, err}
use grimlocker_public.Gql.Opcodes.{codes}
use grimlocker_public.Errors.Codes.{em_dash}

-- The string types.
abbrev pub PqcAlgorithm : Type 0
PqcAlgorithm = List ℕ

abbrev pub algo_ml_kem_768 : PqcAlgorithm
algo_ml_kem_768 = codes "ML-KEM-768"

abbrev pub algo_ml_dsa_65 : PqcAlgorithm
algo_ml_dsa_65 = codes "ML-DSA-65"

abbrev pub algo_hybrid_x25519_ml_kem : PqcAlgorithm
algo_hybrid_x25519_ml_kem = codes "X25519+ML-KEM-768"

abbrev pub algo_chacha20_poly1305 : PqcAlgorithm
algo_chacha20_poly1305 = codes "ChaCha20-Poly1305"

pub data PqcSafetyLevel : Type 0 where
  pqc_safety_classical : PqcSafetyLevel
  pqc_safety_quantum_reduced : PqcSafetyLevel
  pqc_safety_quantum_full : PqcSafetyLevel

pub record PqcStatus : Type 0 where
  pub symmetric_algo : PqcAlgorithm
  pub symmetric_safety : PqcSafetyLevel
  pub kem_available : Bool
  pub sig_available : Bool
  pub hybrid_mode : Bool
  pub notes : List (List ℕ)

unfoldable pub current_pqc_status : PqcStatus
current_pqc_status = record {
  symmetric_algo = algo_chacha20_poly1305;
  symmetric_safety = pqc_safety_quantum_reduced;
  kem_available = false;
  sig_available = false;
  hybrid_mode = false;
  notes =
      (codes "ChaCha20-Poly1305 with 256-bit keys is quantum-safe for symmetric operations "
        ++ (codes "(Grover's algorithm reduces effective strength to 128 bits "
            ++ (em_dash ++ codes " still secure).")))
      ∷ (codes "Key encapsulation (ML-KEM / CRYSTALS-Kyber) is not yet integrated. "
          ++ codes "When available, enable HybridMode for X25519 + ML-KEM key agreement.")
      ∷ codes "Signature scheme (ML-DSA / CRYSTALS-Dilithium) is not yet integrated."
      ∷ codes "Migration path: implement PQCProvider interface and inject via SetPQCProvider()."
      ∷ [];
}

pub record PqcProvider : Type 0 where
  pub generate_kem_key_pair : Outcome (List ℕ) (List ℕ × List ℕ)
  pub encapsulate : List ℕ → Outcome (List ℕ) (List ℕ × List ℕ)
  pub decapsulate : List ℕ → List ℕ → Outcome (List ℕ) (List ℕ)
  pub algorithm : PqcAlgorithm

abbrev pub not_implemented : List ℕ
not_implemented =
    codes "PQC not yet implemented "
    ++ (em_dash ++ codes " see crypto/pqc_ready.go migration notes")

abbrev pub not_implemented_pqc_provider : PqcProvider
not_implemented_pqc_provider = record {
  generate_kem_key_pair = err not_implemented;
  encapsulate = λ public_key. err not_implemented;
  decapsulate = λ private_key ciphertext. err not_implemented;
  algorithm = [];
}

unfoldable pub default_pqc_provider : PqcProvider
default_pqc_provider = not_implemented_pqc_provider
