-- ===== src/Errors/Remediation.antt =====
-- engine/errors/logging.go: the hints for errors, and the labels of their levels.
use grimlocker_public.Base.{ℕ, List, [], ◌∷◌, ◌++◌, ◌==◌, if◌then◌else◌}
use grimlocker_public.Gql.Opcodes.{codes}
use grimlocker_public.Errors.Codes.{
  em_dash, err_code_vault_locked, err_code_vault_not_initialized, err_code_auth_invalid,
  err_code_auth_lockdown, err_code_storage_io, err_code_storage_corruption,
  err_code_storage_not_found, err_code_storage_index_failed, err_code_crypto_decryption,
  err_code_crypto_invalid_key, err_code_security_memlock, err_code_security_lockdown,
  err_code_security_mvk_missing, err_code_bus_timeout, err_code_protocol_invalid,
}

abbrev pub error_remediation : List (ℕ × List ℕ)
error_remediation =
    (err_code_vault_locked, codes "Unlock the vault first (send AUTH.UNLOCK)")
    ∷ (err_code_vault_not_initialized, codes "Run vault setup (send VAULT.INIT)")
    ∷ (err_code_auth_invalid, codes "Check your password and try again")
    ∷ (
      err_code_auth_lockdown,
      codes "Too many failed attempts " ++ em_dash ++ codes " wait for lockout to expire",
    )
    ∷ (err_code_storage_io, codes "Check vault file permissions and available disk space")
    ∷ (
      err_code_storage_corruption,
      codes "Vault data may be corrupted " ++ em_dash ++ codes " check HMAC and backup",
    )
    ∷ (
      err_code_storage_not_found,
      codes "Block does not exist " ++ em_dash ++ codes " it may have been deleted",
    )
    ∷ (
      err_code_storage_index_failed,
      codes "Index persist failed " ++ em_dash ++ codes " check disk space and permissions",
    )
    ∷ (
      err_code_crypto_decryption,
      codes "Decryption failed " ++ em_dash ++ codes " wrong key or tampered data",
    )
    ∷ (err_code_crypto_invalid_key, codes "Key material is nil or wrong length (need 32 bytes)")
    ∷ (
      err_code_security_memlock,
      codes "Cannot lock memory " ++ em_dash ++ codes " check OS limits (ulimit -l)",
    )
    ∷ (
      err_code_security_lockdown,
      codes "Hard lockdown " ++ em_dash ++ codes " restart daemon and re-enter password",
    )
    ∷ (
      err_code_security_mvk_missing,
      codes "Vault is locked " ++ em_dash ++ codes " unlock before this operation",
    )
    ∷ (
      err_code_bus_timeout,
      codes "Request timed out " ++ em_dash ++ codes " daemon may be overloaded",
    )
    ∷ (
      err_code_protocol_invalid,
      codes "Binary frame is malformed " ++ em_dash ++ codes " check client version",
    )
    ∷ []

-- `ErrorRemediation[code]`, or the generic hint.
abbrev hint_in : List (ℕ × List ℕ) → ℕ → List ℕ
hint_in [] code = codes "Check daemon logs for details"
hint_in ((c, hint) ∷ hs) code = let rest = hint_in hs code in if c == code then hint else rest

unfoldable pub remediation : ℕ → List ℕ
remediation code = hint_in error_remediation code

pub data ErrorLevel : Type 0 where
  level_info : ErrorLevel
  level_warn : ErrorLevel
  level_error : ErrorLevel
  level_critical : ErrorLevel
  level_security : ErrorLevel

unfoldable pub level_label : ErrorLevel → List ℕ
level_label level_info = codes "INFO"
level_label level_warn = codes "WARN"
level_label level_error = codes "ERROR"
level_label level_critical = codes "CRITICAL"
level_label level_security = codes "SECURITY"
