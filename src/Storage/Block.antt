-- ===== src/Storage/Block.antt =====
-- The blocks of engine/storage/block.go, the categories of engine/storage/entry.go, and the strategies of
-- engine/storage/interface.go. The state of a strategy is a `W`.
use grimlocker_public.Base.{ℕ, List, Option, none}
use grimlocker_public.Base.Outcome.{Outcome, ok}
use grimlocker_public.Gql.Opcodes.{codes}

abbrev pub Category : Type 0
Category = List ℕ

abbrev pub category_password : Category
category_password = codes "PASSWORD"

abbrev pub category_ssh_key : Category
category_ssh_key = codes "SSH_KEY"

abbrev pub category_certificate : Category
category_certificate = codes "CERTIFICATE"

abbrev pub category_file_vault : Category
category_file_vault = codes "FILE_VAULT"

-- Timestamps are bit patterns of int64.
pub record Block : Type 0 where
  pub id : List ℕ
  pub nonce : List ℕ
  pub hmac : List ℕ
  pub data_bytes : List ℕ
  pub category : Category
  pub created_at : ℕ
  pub updated_at : ℕ

pub record BlockMeta : Type 0 where
  pub id : List ℕ
  pub size : ℕ
  pub category : Category
  pub created_at : ℕ
  pub updated_at : ℕ

pub record StorageStrategy (W E : Type 0) : Type 0 where
  pub name : List ℕ
  pub on_write : Block → W → Outcome E Block × W
  pub on_read : Block → W → Outcome E Block × W
  pub on_trigger : List ℕ → W → Option E × W

-- NopStrategy
abbrev pub nop_strategy : {W E : Type 0} → StorageStrategy W E
nop_strategy = record {
  name = codes "nop";
  on_write = λ b w. (ok b, w);
  on_read = λ b w. (ok b, w);
  on_trigger = λ key w. (none, w);
}
