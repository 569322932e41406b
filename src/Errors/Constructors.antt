-- ===== src/Errors/Constructors.antt =====
-- The constructors of engine/errors/types.go. `decimal` is how fmt prints a number.
use grimlocker_public.Base.{ℕ, true, false, List, [], ◌∷◌, ◌++◌}
use grimlocker_public.Base.Dict.{Dict}
use grimlocker_public.Base.Int.{ℤ}
use grimlocker_public.Gql.Opcodes.{codes}
use grimlocker_public.Errors.{Site, GoError, no_error, new_error, safe_prefix}
use grimlocker_public.Errors.Codes.{
  err_code_storage_io, em_dash, err_code_auth_invalid, err_code_auth_lockdown, err_code_bus_gated,
  err_code_bus_shutdown, err_code_bus_timeout, err_code_crypto_decryption,
  err_code_crypto_encryption, err_code_crypto_handle_unknown, err_code_crypto_invalid_key,
  err_code_crypto_key_derivation, err_code_protocol_invalid, err_code_security_lockdown,
  err_code_security_memlock, err_code_security_mvk_missing, err_code_storage_corruption,
  err_code_storage_index_failed, err_code_storage_not_found, err_code_vault_locked,
  err_code_vault_not_initialized,
}

module _ {P S : Type 0} where
  unfoldable pub new_vault_locked_error : Site S → GoError P S
  new_vault_locked_error site =
      new_error err_code_vault_locked (codes "vault is locked") no_error
        (record { block_id = []; operation = codes "vault_access"; details = [] }) false site

  unfoldable pub new_auth_invalid_error : List ℕ → GoError P S → Site S → GoError P S
  new_auth_invalid_error operation cause site =
      new_error err_code_auth_invalid (codes "authentication failed") cause
        (record { block_id = []; operation = operation; details = [] }) true site

  unfoldable pub new_vault_not_initialized_error : Site S → GoError P S
  new_vault_not_initialized_error site =
      new_error err_code_vault_not_initialized
        (codes "vault not initialized " ++ em_dash ++ codes " run setup first") no_error
        (record { block_id = []; operation = codes "vault_init_check"; details = [] }) false site

  unfoldable pub new_storage_io_error : List ℕ → List ℕ → GoError P S → Site S → GoError P S
  new_storage_io_error operation block_id cause site =
      new_error err_code_storage_io (codes "storage I/O failure") cause
        (record { block_id = block_id; operation = operation; details = [] }) true site

  unfoldable pub new_storage_corruption_error :
      List ℕ → List ℕ → Dict (List ℕ) → Site S → GoError P S
  new_storage_corruption_error operation block_id details site =
      new_error err_code_storage_corruption (codes "storage data corruption detected") no_error
        (record { block_id = block_id; operation = operation; details = details }) true site

  unfoldable pub new_storage_not_found_error : List ℕ → Site S → GoError P S
  new_storage_not_found_error block_id site =
      new_error err_code_storage_not_found (codes "block not found: " ++ block_id) no_error
        (record { block_id = block_id; operation = codes "block_lookup"; details = [] }) false site

  unfoldable pub new_storage_index_error : List ℕ → GoError P S → Site S → GoError P S
  new_storage_index_error operation cause site =
      new_error err_code_storage_index_failed (codes "vault index operation failed") cause
        (record { block_id = []; operation = operation; details = [] }) true site

  unfoldable pub new_crypto_decryption_error : List ℕ → GoError P S → Site S → GoError P S
  new_crypto_decryption_error block_id cause site =
      new_error err_code_crypto_decryption
        (codes "decryption failed " ++ em_dash ++ codes " wrong key or data tampered") cause
        (record { block_id = block_id; operation = codes "chacha20poly1305_open"; details = [] })
        true site

  unfoldable pub new_crypto_encryption_error : List ℕ → GoError P S → Site S → GoError P S
  new_crypto_encryption_error operation cause site =
      new_error err_code_crypto_encryption (codes "encryption failed") cause
        (record { block_id = []; operation = operation; details = [] }) true site

  unfoldable pub new_crypto_key_derivation_error : List ℕ → GoError P S → Site S → GoError P S
  new_crypto_key_derivation_error operation cause site =
      new_error err_code_crypto_key_derivation (codes "key derivation failed") cause
        (record { block_id = []; operation = operation; details = [] }) true site

  unfoldable pub new_crypto_handle_unknown_error : List ℕ → Site S → GoError P S
  new_crypto_handle_unknown_error handle site =
      new_error err_code_crypto_handle_unknown (codes "key handle not found") no_error
        (record {
          block_id = [];
          operation = codes "key_resolve";
          details = ((codes "handle_prefix", safe_prefix handle 8) ∷ []);
        })
        false site

  unfoldable pub new_security_memlock_error : GoError P S → Site S → GoError P S
  new_security_memlock_error cause site =
      new_error err_code_security_memlock
        (codes "cannot lock memory " ++ em_dash ++ codes " key material may be swappable") cause
        (record { block_id = []; operation = codes "memlock_alloc"; details = [] }) true site

  unfoldable pub new_security_lockdown_error : List ℕ → Dict (List ℕ) → Site S → GoError P S
  new_security_lockdown_error _ details site =
      new_error err_code_security_lockdown
        (codes "hard lockdown triggered " ++ em_dash ++ codes " all key material zeroed") no_error
        (record { block_id = []; operation = codes "hard_lockdown"; details = details }) true site

  unfoldable pub new_security_mvk_missing_error : List ℕ → Site S → GoError P S
  new_security_mvk_missing_error operation site =
      new_error err_code_security_mvk_missing
        (codes "master vault key not available " ++ em_dash ++ codes " vault locked?") no_error
        (record { block_id = []; operation = operation; details = [] }) false site

  unfoldable pub new_bus_timeout_error : List ℕ → Site S → GoError P S
  new_bus_timeout_error event_type site =
      new_error err_code_bus_timeout (codes "event request timed out") no_error
        (record {
          block_id = [];
          operation = codes "bus_request";
          details = ((codes "event_type", event_type) ∷ []);
        })
        false site

  unfoldable pub new_bus_shutdown_error : Site S → GoError P S
  new_bus_shutdown_error site =
      new_error err_code_bus_shutdown (codes "bus is shutting down") no_error
        (record { block_id = []; operation = codes "bus_dispatch"; details = [] }) false site

  unfoldable pub new_bus_gated_error : List ℕ → List ℕ → Site S → GoError P S
  new_bus_gated_error event_type channel site =
      new_error err_code_bus_gated (codes "event dropped: vault not unlocked") no_error
        (record {
          block_id = [];
          operation = codes "gate_check";
          details = ((codes "event_type", event_type) ∷ (codes "channel", channel) ∷ []);
        })
        false site

  unfoldable pub new_protocol_error : List ℕ → GoError P S → Site S → GoError P S
  new_protocol_error operation cause site =
      new_error err_code_protocol_invalid
        (codes "protocol error " ++ em_dash ++ codes " invalid message format") cause
        (record { block_id = []; operation = operation; details = [] }) true site

module _ {P S : Type 0} (decimal : ℤ → List ℕ) where
  unfoldable pub new_auth_lockdown_error : ℤ → Site S → GoError P S
  new_auth_lockdown_error attempts_remaining site =
      new_error err_code_auth_lockdown (codes "vault locked out after too many failed attempts")
        no_error
        (record {
          block_id = [];
          operation = codes "auth_lockdown";
          details = ((codes "remaining_attempts", decimal attempts_remaining) ∷ []);
        })
        false site

  unfoldable pub new_crypto_invalid_key_error : ℤ → Site S → GoError P S
  new_crypto_invalid_key_error got site =
      new_error err_code_crypto_invalid_key
        (codes "invalid key length: got " ++ (decimal got ++ codes " bytes, need 32")) no_error
        (record {
          block_id = [];
          operation = codes "key_validation";
          details = ((codes "got_bytes", decimal got) ∷ []);
        })
        true site
