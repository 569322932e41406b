-- ===== src/Bridge/Default.antt =====
-- engine/bridge/interface.go: the operations of a bridge to the enclave, of which `W` is the state, and
-- the bridge without an enclave. A nil slice is empty.
use grimlocker_public.Base.{ℕ, List, [], Option, none}
use grimlocker_public.Base.Int.{ℤ}
use grimlocker_public.Base.Outcome.{Outcome, ok}
use grimlocker_public.Bridge.GoFallback.{
  Hkdf, go_secure_zero, go_derive_coordinate, go_derive_workspace_key,
}

pub record RustBridge (W : Type 0) : Type 0 where
  pub init_core : W → Option (List ℕ) × W
  pub shutdown_core : W → W
  pub secure_zero : List ℕ → W → List ℕ × W
  pub derive_coordinate : List ℕ → List ℤ → W → Outcome (List ℕ) (List ℕ) × W
  pub derive_workspace_key : List ℕ → List ℕ → W → Outcome (List ℕ) (List ℕ) × W
  pub mvk_store : List ℕ → W → Outcome (List ℕ) (List ℕ) × W
  pub mvk_revoke : List ℕ → W → W
  pub encrypt_handle : List ℕ → List ℕ → List ℕ → W → Outcome (List ℕ) (List ℕ) × W
  pub decrypt_handle : List ℕ → List ℕ → List ℕ → W → Outcome (List ℕ) (List ℕ) × W
  pub generate_entropy_file : List ℕ → ℤ → W → Option (List ℕ) × W

abbrev pub default_bridge : {W : Type 0} → (List ℕ → List ℕ) → Hkdf → RustBridge W
default_bridge sha256 hkdf = record {
  init_core = λ w. (none, w);
  shutdown_core = λ w. w;
  secure_zero = λ b w. (go_secure_zero b, w);
  derive_coordinate = λ entropy offsets w. (go_derive_coordinate sha256 hkdf entropy offsets, w);
  derive_workspace_key = λ master_key id w. (go_derive_workspace_key hkdf master_key id, w);
  mvk_store = λ mvk w. (ok [], w);
  mvk_revoke = λ handle w. w;
  encrypt_handle = λ handle plaintext aad w. (ok [], w);
  decrypt_handle = λ handle ciphertext aad w. (ok [], w);
  generate_entropy_file = λ path line_count w. (none, w);
}
