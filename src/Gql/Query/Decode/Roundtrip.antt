-- ===== src/Gql/Query/Decode/Roundtrip.antt =====
-- DecodeQuery recovers what GQLQuery.Encode wrote.
use mathlib.Core.List.{append-nil, Perm}
use mathlib.Core.List.Perm
use native.Mathlib.Bridge.{le_prop}
use grimlocker_public.Base.{
  ℕ, ◌≤◌, ◌≡◌, refl, sym, ◌∙◌, subst, false, some, List, [], ◌++◌, arith, length, get_or, All,
  le→ltb, lt→ltb, bytes_eq,
}
use grimlocker_public.Base.Dict.{lookup}
use grimlocker_public.Base.Dict.Distinct.{
  Distinct, insert_all-nil, perm-Distinct, perm-length, lookup-perm, All-perm,
}
use grimlocker_public.Base.Outcome.{ok}
use grimlocker_public.Wire.{be32}
use grimlocker_public.Gql.Opcodes.{max_fields_count}
use grimlocker_public.Gql.Query.{Fields, Query, Short, AreShort, IsEncodable}
use grimlocker_public.Gql.Query.Encode.{field_count_byte, encode}
use grimlocker_public.Gql.Query.Encode.Layout.{field_bytes, fields_bytes, layout, encode-layout}
use grimlocker_public.Gql.Query.Decode.{
  in_field, truncated_at_limit, truncated_at_offset, decode_credentials, decode_query,
}
use grimlocker_public.Gql.Query.Decode.Reading.{
  At, read_field_lem, read_uint32_lem, past_field, past_uint32, decode_fields_lem, more_left,
}

count_byte : (fs : Fields) → length fs ≤ max_fields_count → field_count_byte fs ≡ length fs
count_byte fs h = ground arith

decode_credentials_lem :
    (p s : List ℕ) (off : ℕ) → Short s → At p off (field_bytes s) → decode_credentials p off ≡ ok s
unfolding decode_credentials
decode_credentials_lem p s off short at =
    let at' : At p off (field_bytes s ++ []) =
      subst (At p off) (sym (append-nil (field_bytes s))) at in
    rw (read_field_lem (in_field "credentials") s [] at' short, lt→ltb _ _ (more_left s [] at'))

-- What stands behind the count byte.
abbrev body : Query → Fields → List ℕ
body q fs =
    field_bytes q.operation
    ++ (field_bytes q.namespace
        ++ (field_bytes q.entry_id
            ++ (field_bytes q.category
                ++ (field_bytes q.title
                    ++ (fields_bytes fs
                        ++ (be32 q.limit ++ (be32 q.offset ++ field_bytes q.credentials)))))))

decode_body :
    (q : Query) (fs : Fields) (op p : List ℕ)
    → IsEncodable q
    → bytes_eq q.operation [] ≡ false
    → All AreShort fs
    → Distinct fs
    → length fs ≤ max_fields_count
    → get_or p 0 0 ≡ length fs
    → At p 1 (body q fs)
    → decode_query p op ≡ ok (record q { fields = fs })
unfolding decode_query
decode_body q fs op p v given short distinct few count at0 =
    let at1 = past_field q.operation _ at0 in
    let at2 = past_field q.namespace _ at1 in
    let at3 = past_field q.entry_id _ at2 in
    let at4 = past_field q.category _ at3 in
    let at5 = past_field q.title _ at4 in
    let (off, e, at6) = decode_fields_lem fs 0 p _ [] _ short at5 in
    let at7 = past_uint32 q.limit _ at6 in
    let at8 = past_uint32 q.offset _ at7 in
    rw (
      le→ltb _ _ at0.within,
      count,
      le→ltb _ _ few,
      read_field_lem (in_field "operation") q.operation _ at0 v.operation_short,
      read_field_lem (in_field "namespace") q.namespace _ at1 v.namespace_short,
      read_field_lem (in_field "entry_id") q.entry_id _ at2 v.entry_id_short,
      read_field_lem (in_field "category") q.category _ at3 v.category_short,
      read_field_lem (in_field "title") q.title _ at4 v.title_short,
      e,
      read_uint32_lem truncated_at_limit q.limit _ at6 v.limit_fits,
      read_uint32_lem truncated_at_offset q.offset _ at7 v.offset_fits,
      decode_credentials_lem p q.credentials _ v.credentials_short at8,
      given,
      insert_all-nil fs distinct,
    )

AreShort-prop : (e : List ℕ × List ℕ) → IsProp (AreShort e)
AreShort-prop e = hlevel le_prop

-- Whatever the orders in which the run time walks the map, an encodable query with an operation is
-- encoded, the
-- payload decodes to it with its map in the order of writing, and that map has the same value at
-- every key. The operation that the decoder is given as a default is not used.
pub decode_query-encode :
    (walk_sizes walk_writes : Fields → Fields) (q : Query) (op : List ℕ)
    → Perm (walk_sizes q.fields) q.fields
    → Perm q.fields (walk_writes q.fields)
    → IsEncodable q
    → bytes_eq q.operation [] ≡ false
    → (p : List ℕ) × (encode walk_sizes walk_writes q ≡ some p)
      × (decode_query p op ≡ ok (record q { fields = walk_writes q.fields }))
      × ((k : List ℕ) → lookup k (walk_writes q.fields) ≡ lookup k q.fields)
unfolding layout
decode_query-encode walk_sizes walk_writes q op sizes writes v given =
    let fs = walk_writes q.fields in
    let same : length fs ≡ length q.fields = sym (perm-length writes) in
    (
      layout q fs,
      encode-layout walk_sizes walk_writes q (Perm.trans sizes writes),
      decode_body q fs op (layout q fs) v given
          (All-perm AreShort AreShort-prop writes v.fields_short)
          (perm-Distinct writes v.fields_distinct) (omega (arith, same, v.fields_few))
          (count_byte q.fields v.fields_few ∙ sym same)
          (record { within = omega arith; sees = refl }),
      λ k. sym (lookup-perm (hlevel) k writes v.fields_distinct),
    )
