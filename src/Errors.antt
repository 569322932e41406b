-- ===== src/Errors.antt =====
-- engine/errors/types.go: the error type of all modules. An error of another package is a `P`, a
-- frame of a captured stack an `S`; the clock and the stack that a constructor sees are its Site. A
-- nil error is `no_error`, and a map of details that is nil one without entries.
pub mod Codes
pub mod Constructors
pub mod Remediation
pub mod Wrapping
pub mod Text
pub mod Logging
mod Tests
use grimlocker_public.Base.{
  ℕ, Bool, true, false, ◌||◌, List, [], ◌∷◌, ◌++◌, length, take, leb, ◌==◌, if◌then◌else◌,
}
use grimlocker_public.Base.Dict.{Key, Dict, insert}
use grimlocker_public.Gql.Opcodes.{codes}
use grimlocker_public.Errors.Codes.{
  err_code_vault_locked, err_code_vault_not_initialized, err_code_auth_invalid,
  err_code_auth_token_expired, err_code_auth_lockdown, err_code_storage_not_found,
  err_code_storage_corruption, err_code_crypto_decryption, err_code_security_unauthorized,
  err_code_security_lockdown, err_code_protocol_invalid, err_code_bus_timeout,
  err_code_protocol_timeout,
}

pub record ErrorContext : Type 0 where
  pub block_id : List ℕ
  pub operation : List ℕ
  pub details : Dict (List ℕ)

-- A GrimlockError without its cause.
pub record GrimlockError (S : Type 0) : Type 0 where
  pub code : ℕ
  pub message : List ℕ
  pub ctx : ErrorContext
  pub stack : List S
  pub timestamp : ℕ
  pub module_id : List ℕ
  pub event_type : List ℕ

-- A value of the type error; a GrimlockError stands with its cause.
pub data GoError (P S : Type 0) : Type 0 where
  no_error : GoError P S
  plain_error : P → GoError P S
  grimlock_error : GrimlockError S → GoError P S → GoError P S

pub record Site (S : Type 0) : Type 0 where
  pub now : ℕ
  pub frames : List S

unfoldable pub safe_prefix : List ℕ → ℕ → List ℕ
safe_prefix s n = if leb (length s) n then s else take n s ++ codes "..."

module _ {S : Type 0} where
  -- HTTPStatus
  unfoldable pub http_status : GrimlockError S → ℕ
  http_status e =
      if e.code == err_code_vault_locked
      then 423
      else if e.code == err_code_vault_not_initialized
      then 404
      else if e.code == err_code_auth_invalid || e.code == err_code_auth_token_expired
      then 401
      else if e.code == err_code_auth_lockdown
      then 429
      else if e.code == err_code_storage_not_found
      then 404
      else if e.code == err_code_storage_corruption || e.code == err_code_crypto_decryption
      then 422
      else if e.code == err_code_security_unauthorized || e.code == err_code_security_lockdown
      then 403
      else if e.code == err_code_protocol_invalid
      then 400
      else if e.code == err_code_bus_timeout || e.code == err_code_protocol_timeout
      then 504
      else 500

  -- WithDetails, with the value as fmt prints it.
  unfoldable pub with_details : Key → List ℕ → GrimlockError S → GrimlockError S
  with_details key value e = record e {
    ctx = record {
      block_id = e.ctx.block_id;
      operation = e.ctx.operation;
      details = insert key value e.ctx.details;
    };
  }

  unfoldable pub with_module : List ℕ → GrimlockError S → GrimlockError S
  with_module id e = record e { module_id = id }

  unfoldable pub with_event : List ℕ → GrimlockError S → GrimlockError S
  with_event t e = record e { event_type = t }

module _ {P S : Type 0} where
  unfoldable pub new_error : ℕ → List ℕ → GoError P S → ErrorContext → Bool → Site S → GoError P S
  new_error code msg cause ctx captures site =
      grimlock_error
        (record {
          code = code;
          message = msg;
          ctx = ctx;
          stack = if captures then site.frames else [];
          timestamp = site.now;
          module_id = [];
          event_type = [];
        })
        cause

  -- The method Is: the target is a GrimlockError with the same code.
  unfoldable pub is_same : GrimlockError S → GoError P S → Bool
  is_same e no_error = false
  is_same e (plain_error p) = false
  is_same e (grimlock_error t _) = e.code == t.code

  unfoldable pub wrap : ℕ → List ℕ → Site S → GoError P S → GoError P S
  wrap code msg site no_error = no_error
  wrap code msg site (plain_error p) =
      new_error code msg (plain_error p) (record { block_id = []; operation = []; details = [] })
        true site
  wrap code msg site (grimlock_error e cause) = grimlock_error e cause

  unfoldable pub sentinel : ℕ → List ℕ → GoError P S
  sentinel code msg =
      grimlock_error
        (record {
          code = code;
          message = msg;
          ctx = record { block_id = []; operation = []; details = [] };
          stack = [];
          timestamp = 0;
          module_id = [];
          event_type = [];
        })
        no_error
