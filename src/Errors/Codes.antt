-- ===== src/Errors/Codes.antt =====
-- The codes of engine/errors/types.go, and a character of its texts.
use grimlocker_public.Base.{ℕ, List, [], ◌∷◌}

abbrev pub err_code_vault_locked : ℕ
err_code_vault_locked = 1001

abbrev pub err_code_vault_not_initialized : ℕ
err_code_vault_not_initialized = 1002

abbrev pub err_code_auth_invalid : ℕ
err_code_auth_invalid = 1003

abbrev pub err_code_auth_timeout : ℕ
err_code_auth_timeout = 1004

abbrev pub err_code_auth_lockdown : ℕ
err_code_auth_lockdown = 1005

abbrev pub err_code_auth_setup_failed : ℕ
err_code_auth_setup_failed = 1006

abbrev pub err_code_auth_token_expired : ℕ
err_code_auth_token_expired = 1007

abbrev pub err_code_storage_io : ℕ
err_code_storage_io = 2001

abbrev pub err_code_storage_corruption : ℕ
err_code_storage_corruption = 2002

abbrev pub err_code_storage_not_found : ℕ
err_code_storage_not_found = 2003

abbrev pub err_code_storage_quota : ℕ
err_code_storage_quota = 2004

abbrev pub err_code_storage_index_failed : ℕ
err_code_storage_index_failed = 2005

abbrev pub err_code_storage_nonce_failed : ℕ
err_code_storage_nonce_failed = 2006

abbrev pub err_code_crypto_key_derivation : ℕ
err_code_crypto_key_derivation = 3001

abbrev pub err_code_crypto_encryption : ℕ
err_code_crypto_encryption = 3002

abbrev pub err_code_crypto_decryption : ℕ
err_code_crypto_decryption = 3003

abbrev pub err_code_crypto_invalid_key : ℕ
err_code_crypto_invalid_key = 3004

abbrev pub err_code_crypto_entropy_failed : ℕ
err_code_crypto_entropy_failed = 3005

abbrev pub err_code_crypto_handle_unknown : ℕ
err_code_crypto_handle_unknown = 3006

abbrev pub err_code_security_memlock : ℕ
err_code_security_memlock = 4001

abbrev pub err_code_security_lockdown : ℕ
err_code_security_lockdown = 4002

abbrev pub err_code_security_integrity : ℕ
err_code_security_integrity = 4003

abbrev pub err_code_security_unauthorized : ℕ
err_code_security_unauthorized = 4004

abbrev pub err_code_security_mvk_missing : ℕ
err_code_security_mvk_missing = 4005

abbrev pub err_code_bus_shutdown : ℕ
err_code_bus_shutdown = 5001

abbrev pub err_code_bus_timeout : ℕ
err_code_bus_timeout = 5002

abbrev pub err_code_bus_gated : ℕ
err_code_bus_gated = 5003

abbrev pub err_code_bus_ttl : ℕ
err_code_bus_ttl = 5004

abbrev pub err_code_bus_module_duplicate : ℕ
err_code_bus_module_duplicate = 5005

abbrev pub err_code_bus_nil_handler : ℕ
err_code_bus_nil_handler = 5006

abbrev pub err_code_protocol_invalid : ℕ
err_code_protocol_invalid = 6001

abbrev pub err_code_protocol_timeout : ℕ
err_code_protocol_timeout = 6002

abbrev pub err_code_protocol_unhandled : ℕ
err_code_protocol_unhandled = 6003

abbrev pub err_code_protocol_auth : ℕ
err_code_protocol_auth = 6004

-- The bytes of an em dash.
abbrev pub em_dash : List ℕ
em_dash = 226 ∷ 128 ∷ 148 ∷ []
