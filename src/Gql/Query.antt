-- ===== src/Gql/Query.antt =====
-- engine/gql/types.go: the query type and the length-prefixed strings of its payload. Strings are
-- lists of bytes and `Fields` is a map from strings to strings.
pub mod Encode
pub mod Decode
use grimlocker_public.Base.{ℕ, ◌+◌, ◌^◌, ◌≤◌, ◌<◌, List, length, All}
use grimlocker_public.Base.Dict.{Dict}
use grimlocker_public.Base.Dict.Distinct.{Distinct}
use grimlocker_public.Gql.Opcodes.{max_fields_count}

abbrev pub Fields : Type 0
Fields = Dict (List ℕ)

pub record Query : Type 0 where
  pub namespace : List ℕ
  pub operation : List ℕ
  pub entry_id : List ℕ
  pub category : List ℕ
  pub title : List ℕ
  pub fields : Fields
  pub credentials : List ℕ
  pub limit : ℕ
  pub offset : ℕ

-- `fieldSize`
abbrev pub field_size : List ℕ → ℕ
field_size s = 2 + length s

-- A string whose length fits its prefix.
abbrev pub Short : List ℕ → Type 0
Short s = length s < 65536

abbrev pub AreShort : List ℕ × List ℕ → Type 0
AreShort e = Short e.0 × Short e.1

-- The queries that the payload's length prefixes and its count byte can express.
pub record IsEncodable (q : Query) : Type 0 where
  pub namespace_short : Short q.namespace
  pub operation_short : Short q.operation
  pub entry_id_short : Short q.entry_id
  pub category_short : Short q.category
  pub title_short : Short q.title
  pub credentials_short : Short q.credentials
  pub fields_short : All AreShort q.fields
  pub fields_distinct : Distinct q.fields
  pub fields_few : length q.fields ≤ max_fields_count
  pub limit_fits : q.limit < 2 ^ 32
  pub offset_fits : q.offset < 2 ^ 32
