-- ===== src/Gql/Tests.antt =====
-- A request that is encoded, framed, decoded and validated, and the theorems at it.
use mathlib.Core.List.{Perm, Nodup-nil}
use mathlib.Core.List.Perm
use grimlocker_public.Base.{
  ℕ, ◌≡◌, refl, ◌↔◌, ◌≤◌, inl, inr, true, false, List, [], ◌∷◌, ◌++◌, some, arith, length,
}
use grimlocker_public.Base.Dict.{lookup, insert}
use grimlocker_public.Base.Dict.Distinct.{insert-Distinct}
use grimlocker_public.Base.Outcome.{ok, err}
use grimlocker_public.Wire.{IsBytes}
use grimlocker_public.Gql.Opcodes.{
  codes, is_read_operation, is_write_operation, opcode_mutate, max_payload_size,
}
use grimlocker_public.Gql.Frame.{Frame, IsValid, encode, decode_frame, length_mismatch}
use grimlocker_public.Gql.Frame.Roundtrip.{decode_frame_iff}
use grimlocker_public.Gql.Query.{Fields, Query, IsEncodable}
use grimlocker_public.Gql.Query.Encode
use grimlocker_public.Gql.Query.Encode.{
  serialize_field, serialize_fields, fields_size, encoded_size, write_query,
}
use grimlocker_public.Gql.Query.Encode.Layout.{field_bytes, fields_bytes, layout, encode-layout}
use grimlocker_public.Gql.Query.Decode.{
  decode_query, decode_fields, decode_credentials, read_field, read_uint32, slice_from,
  deserialize_field,
}
use grimlocker_public.Gql.Query.Decode.Roundtrip.{decode_query-encode}
use grimlocker_public.Gql.Utf8.{decode_rune, runes_after}
use grimlocker_public.Gql.Validator.{
  SessionInfo, validate_identifier, validate_printable, validate_query, validate_acl,
  validate_frame, validate_request, validate_payload_bytes, validate_string_field,
  check_ident_chars, authorize, check_text_chars, is_ident_char, validate_fields,
}
use grimlocker_public.Gql.Message.{new_query_frame}
use grimlocker_public.Gql.Message.EndToEnd.{request_arrives}
use grimlocker_public.Gql.Validator.WellFormed.{IsWellFormed, validate_query_iff}
use grimlocker_public.Gql.Validator.Access.{IsAuthorized}
use grimlocker_public.Gql.Validator.Accept.{IsRequest, validate_frame_iff}

abbrev two_fields : Fields
two_fields = insert (codes "url") (codes "x.org") (insert (codes "user") (codes "bob") [])

abbrev create_request : Query
create_request = record {
  namespace = codes "alice";
  operation = codes "create_entry";
  entry_id = codes "e-1";
  category = codes "login";
  title = codes "My site";
  fields = two_fields;
  credentials = codes "proof";
  limit = 10;
  offset = 0;
}

-- A walk that starts with the second entry.
abbrev swapped : Fields → Fields
swapped [] = []
swapped (a ∷ []) = a ∷ []
swapped (a ∷ b ∷ fs) = b ∷ a ∷ fs

swapped-Perm : (fs : Fields) → Perm (swapped fs) fs
swapped-Perm [] = Perm.refl []
swapped-Perm (a ∷ []) = Perm.refl (a ∷ [])
swapped-Perm (a ∷ b ∷ fs) = Perm.swap a b fs

abbrev alice : SessionInfo
alice = record {
  is_unlocked = true;
  active_handle = codes "mvk-1";
  user_id = codes "alice";
  has_role = λ r. false;
}

abbrev request_payload : List ℕ
request_payload = layout create_request (swapped two_fields)

abbrev request_frame : Frame
request_frame = record {
  version = 1;
  opcode = 2;
  flags = 0;
  payload_size = length request_payload;
  payload = request_payload;
}

abbrev small_frame : Frame
small_frame = record { version = 1; opcode = 3; flags = 5; payload_size = 2; payload = 7 ∷ 9 ∷ [] }

abbrev small_wire : List ℕ
small_wire = 1 ∷ 3 ∷ 0 ∷ 5 ∷ 0 ∷ 0 ∷ 0 ∷ 2 ∷ 7 ∷ 9 ∷ []

small_frame_decodes : decode_frame small_wire ≡ ok small_frame
unfolding decode_frame
small_frame_decodes = refl

trailing_byte_refused : decode_frame (small_wire ++ 0 ∷ []) ≡ err (length_mismatch 11 10)
unfolding decode_frame
trailing_byte_refused = refl

request_decodes :
    decode_query request_payload [] ≡ ok (record create_request { fields = swapped two_fields })
unfolding field_bytes fields_bytes layout decode_query decode_fields decode_credentials read_field
    read_uint32 slice_from deserialize_field
request_decodes = refl

small-IsBytes : IsBytes small_wire
small-IsBytes = ground arith

decode_frame_iff_example :
    (decode_frame small_wire ≡ ok small_frame)
    ↔ (IsValid small_frame × (encode small_frame ≡ some small_wire))
decode_frame_iff_example = decode_frame_iff small_wire small_frame small-IsBytes

encode-layout_example : Encode.encode (λ fs. fs) swapped create_request ≡ some request_payload
encode-layout_example =
    encode-layout (λ fs. fs) swapped create_request (Perm.symm (swapped-Perm two_fields))

create_request-IsEncodable : IsEncodable create_request
create_request-IsEncodable = record {
  namespace_short = ground arith;
  operation_short = ground arith;
  entry_id_short = ground arith;
  category_short = ground arith;
  title_short = ground arith;
  credentials_short = ground arith;
  fields_short = ground arith;
  fields_distinct =
      insert-Distinct (codes "url") (codes "x.org") (insert (codes "user") (codes "bob") [])
        (insert-Distinct (codes "user") (codes "bob") [] Nodup-nil);
  fields_few = ground arith;
  limit_fits = ground arith;
  offset_fits = ground arith;
}

decode_query-encode_example :
    (p : List ℕ) × (Encode.encode (λ fs. fs) swapped create_request ≡ some p)
    × (decode_query p (codes "get_entry")
        ≡ ok (record create_request { fields = swapped two_fields }))
    × ((k : List ℕ) → lookup k (swapped two_fields) ≡ lookup k two_fields)
decode_query-encode_example =
    decode_query-encode (λ fs. fs) swapped create_request (codes "get_entry") (Perm.refl two_fields)
      (Perm.symm (swapped-Perm two_fields)) create_request-IsEncodable refl

request-IsBytes : IsBytes request_payload
unfolding layout field_bytes fields_bytes
request-IsBytes = ground arith

validate_frame_iff_example :
    (validate_frame swapped request_frame (some alice)
      ≡ ok (some (record create_request { fields = swapped two_fields })))
    ↔ IsRequest request_frame (some alice) (record create_request { fields = swapped two_fields })
validate_frame_iff_example =
    validate_frame_iff swapped swapped-Perm request_frame (some alice)
      (record create_request { fields = swapped two_fields })

request_accepted :
    validate_frame swapped request_frame (some alice)
    ≡ ok (some (record create_request { fields = swapped two_fields }))
unfolding validate_frame validate_request layout field_bytes fields_bytes validate_payload_bytes
    decode_query read_field slice_from deserialize_field decode_fields read_uint32
    decode_credentials validate_query validate_string_field validate_identifier check_ident_chars
    runes_after is_read_operation is_write_operation decode_rune authorize check_text_chars
    is_ident_char validate_acl validate_fields validate_printable
request_accepted = refl

abbrev swapped_request : Query
swapped_request = record create_request { fields = swapped two_fields }

swapped_passes : validate_query swapped swapped_request opcode_mutate ≡ ok tt
unfolding validate_query validate_string_field validate_identifier check_ident_chars runes_after
    is_read_operation is_write_operation decode_rune check_text_chars is_ident_char validate_fields
    validate_printable
swapped_passes = refl

request-IsWellFormed : IsWellFormed swapped_request opcode_mutate
request-IsWellFormed =
    (validate_query_iff swapped swapped_request opcode_mutate (swapped-Perm (swapped two_fields))).0
      swapped_passes

alice-IsAuthorized : IsAuthorized create_request alice
alice-IsAuthorized = record {
  unlocked = refl;
  has_handle = λ e. cc;
  has_credentials = λ h e. cc;
  own_namespace = inr (inr (inl refl));
}

request_fits : length request_payload ≤ max_payload_size
unfolding layout field_bytes fields_bytes
request_fits = omega arith

request_arrives_example :
    (f : Frame) × (d : List ℕ) × (new_query_frame (λ fs. fs) swapped create_request ≡ some f)
    × (encode f ≡ some d)
    × (decode_frame d ≡ ok f)
    × (validate_frame swapped f (some alice) ≡ ok (some swapped_request))
unfolding is_write_operation
request_arrives_example =
    request_arrives (λ fs. fs) swapped swapped swapped-Perm create_request alice
      (Perm.refl two_fields) (Perm.symm (swapped-Perm two_fields)) create_request-IsEncodable refl
      request-IsBytes request_fits request-IsWellFormed alice-IsAuthorized
