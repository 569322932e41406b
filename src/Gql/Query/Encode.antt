-- ===== src/Gql/Query/Encode.antt =====
-- GQLQuery.Encode of engine/gql/types.go. The two `range` loops over the map walk it in orders that
-- the run time chooses, `walk_sizes` and `walk_writes`.
pub mod Layout
use grimlocker_public.Base.{
  ℕ, ◌+◌, ◌%◌, List, [], ◌∷◌, Option, some, length, replicate, ltb, if◌then◌else◌,
}
use grimlocker_public.Base.Maybe.{◌>>=◌}
use grimlocker_public.Wire.{be16, be32}
use grimlocker_public.Wire.Buffers.{Step, ◌then◌, put_step, copy_step}
use grimlocker_public.Gql.Opcodes.{max_fields_count}
use grimlocker_public.Gql.Query.{Fields, Query, field_size}

unfoldable pub serialize_field : List ℕ → Step
serialize_field s = put_step (be16 (length s % 65536)) then copy_step s

-- The loop that adds up the sizes.
unfoldable pub fields_size : Fields → ℕ
fields_size [] = 0
fields_size ((k, v) ∷ fs) = field_size k + field_size v + fields_size fs

-- The loop that writes the entries.
unfoldable pub serialize_fields : Fields → Step
serialize_fields [] = λ c. some c
serialize_fields ((k, v) ∷ fs) = serialize_field k then serialize_field v then serialize_fields fs

abbrev pub field_count_byte : Fields → ℕ
field_count_byte fs =
    let fc = length fs % 256 in if ltb max_fields_count fc then max_fields_count else fc

unfoldable pub encoded_size : (Fields → Fields) → Query → ℕ
encoded_size walk_sizes q =
    1
    + field_size q.operation
    + field_size q.namespace
    + field_size q.entry_id
    + field_size q.category
    + field_size q.title
    + fields_size (walk_sizes q.fields)
    + 4
    + 4
    + field_size q.credentials

unfoldable pub write_query : (Fields → Fields) → Query → Step
write_query walk_writes q =
    put_step (field_count_byte q.fields ∷ [])
    then serialize_field q.operation
    then serialize_field q.namespace
    then serialize_field q.entry_id
    then serialize_field q.category
    then serialize_field q.title
    then serialize_fields (walk_writes q.fields)
    then put_step (be32 q.limit)
    then put_step (be32 q.offset)
    then serialize_field q.credentials

unfoldable pub encode : (walk_sizes walk_writes : Fields → Fields) → Query → Option (List ℕ)
encode walk_sizes walk_writes q = do
  c ← write_query walk_writes q (record { buf = replicate (encoded_size walk_sizes q) 0; off = 0 })
  some c.buf
