-- ===== src/Gql/Query/Encode/Layout.antt =====
-- The bytes that GQLQuery.Encode produces: the buffer is allocated at exactly the size that the
-- writes fill.
use mathlib.Core.List.{Perm, Permᴰ}
use mathlib.Core.Logic.{∥∥₁_elim}
use native.Mathlib.Nat.{ℕ_set}
use grimlocker_public.Base.{
  ℕ, ◌%◌, ◌≡◌, refl, ◌∙◌, List, [], ◌∷◌, ◌++◌, some, arith, length, length-append,
}
use grimlocker_public.Wire.{be16, be32}
use grimlocker_public.Wire.Buffers.{
  Writes, Writes-copy_step, Writes-nothing, Writes-then, Writes-put_step, Writes-fill,
}
use grimlocker_public.Gql.Query.{Fields, Query, field_size}
use grimlocker_public.Gql.Query.Encode.{
  serialize_field, serialize_fields, fields_size, field_count_byte, encoded_size, write_query,
  encode,
}

unfoldable pub field_bytes : List ℕ → List ℕ
field_bytes s = be16 (length s % 65536) ++ s

unfoldable pub fields_bytes : Fields → List ℕ
fields_bytes [] = []
fields_bytes ((k, v) ∷ fs) = field_bytes k ++ (field_bytes v ++ fields_bytes fs)

-- The payload of a query whose map is written in the order of `fs`.
unfoldable pub layout : Query → Fields → List ℕ
layout q fs =
    (field_count_byte q.fields ∷ [])
    ++ (field_bytes q.operation
        ++ (field_bytes q.namespace
            ++ (field_bytes q.entry_id
                ++ (field_bytes q.category
                    ++ (field_bytes q.title
                        ++ (fields_bytes fs
                            ++ (be32 q.limit ++ (be32 q.offset ++ field_bytes q.credentials))))))))

Writes-serialize_field : (s : List ℕ) → Writes (serialize_field s) (field_bytes s)
unfolding serialize_field field_bytes
Writes-serialize_field s =
    Writes-then (Writes-put_step (be16 (length s % 65536))) (Writes-copy_step s)

Writes-serialize_fields : (fs : Fields) → Writes (serialize_fields fs) (fields_bytes fs)
unfolding serialize_fields fields_bytes
Writes-serialize_fields [] = Writes-nothing
Writes-serialize_fields ((k, v) ∷ fs) =
    Writes-then (Writes-serialize_field k)
      (Writes-then (Writes-serialize_field v) (Writes-serialize_fields fs))

pub length-field_bytes : (s : List ℕ) → length (field_bytes s) ≡ field_size s
unfolding field_bytes
length-field_bytes s = omega arith

length-fields_bytes : (fs : Fields) → length (fields_bytes fs) ≡ fields_size fs
unfolding fields_bytes fields_size
length-fields_bytes [] = refl
length-fields_bytes ((k, v) ∷ fs) = omega (
  arith,
  length-append (field_bytes k) (field_bytes v ++ fields_bytes fs),
  length-append (field_bytes v) (fields_bytes fs),
  length-field_bytes k,
  length-field_bytes v,
  length-fields_bytes fs,
)

Writes-write_query :
    (walk : Fields → Fields) (q : Query) → Writes (write_query walk q) (layout q (walk q.fields))
unfolding write_query layout
Writes-write_query walk q = Writes-then (Writes-put_step _) (
    Writes-then (Writes-serialize_field q.operation) (
      Writes-then (Writes-serialize_field q.namespace) (
        Writes-then (Writes-serialize_field q.entry_id) (
          Writes-then (Writes-serialize_field q.category) (
            Writes-then (Writes-serialize_field q.title) (
              Writes-then (Writes-serialize_fields (walk q.fields)) (
                Writes-then (Writes-put_step (be32 q.limit)) (
                  Writes-then (Writes-put_step (be32 q.offset))
                    (Writes-serialize_field q.credentials)))))))))

-- The order in which a map is walked does not change its size.
fields_size-permᴰ : {fs gs : Fields} → Permᴰ fs gs → fields_size fs ≡ fields_size gs
unfolding fields_size
fields_size-permᴰ Permᴰ.nil = refl
fields_size-permᴰ (Permᴰ.cons e p) = ground (arith, fields_size-permᴰ p)
fields_size-permᴰ (Permᴰ.swap e d) = ground arith
fields_size-permᴰ (Permᴰ.trans p r) = fields_size-permᴰ p ∙ fields_size-permᴰ r

fields_size-perm : {fs gs : Fields} → Perm fs gs → fields_size fs ≡ fields_size gs
fields_size-perm p = ∥∥₁_elim p (ℕ_set _ _) fields_size-permᴰ

size-layout :
    (walk_sizes : Fields → Fields) (q : Query) (fs : Fields)
    → Perm (walk_sizes q.fields) fs
    → encoded_size walk_sizes q ≡ length (layout q fs)
unfolding encoded_size layout
size-layout walk_sizes q fs p =
    omega (arith, length-append {0}, length-field_bytes, length-fields_bytes fs, fields_size-perm p)

-- Encoding never panics: whatever the two walks of the map, the buffer has exactly the size that
-- is written, and it holds the layout.
pub encode-layout :
    (walk_sizes walk_writes : Fields → Fields) (q : Query)
    → Perm (walk_sizes q.fields) (walk_writes q.fields)
    → encode walk_sizes walk_writes q ≡ some (layout q (walk_writes q.fields))
unfolding encode
encode-layout walk_sizes walk_writes q p = rw (
    Writes-fill (write_query walk_writes q) (layout q (walk_writes q.fields))
      (encoded_size walk_sizes q) (Writes-write_query walk_writes q)
      (size-layout walk_sizes q (walk_writes q.fields) p))
