-- ===== src/Gql/Message/EndToEnd.antt =====
-- From a client's query to the query that the validator hands on.
use mathlib.Core.List.{Perm}
use mathlib.Core.List.Perm
use grimlocker_public.Base.{
  ℕ, ◌≤◌, ◌≡◌, refl, subst, ◌⊎◌, true, false, List, [], ◌++◌, some, arith, length, bytes_eq,
}
use grimlocker_public.Base.Outcome.{ok}
use grimlocker_public.Wire.{IsBytes}
use grimlocker_public.Gql.Opcodes.{opcode_query, opcode_mutate, max_payload_size, is_valid_opcode}
use grimlocker_public.Gql.Frame.{Frame, encode, decode_frame, IsValid}
use grimlocker_public.Gql.Frame.Roundtrip.{decode-header, header, encode-layout}
use grimlocker_public.Gql.Query.{Fields, Query, IsEncodable}
use grimlocker_public.Gql.Query.Encode.Layout.{layout}
use grimlocker_public.Gql.Query.Encode.Layout
use grimlocker_public.Gql.Query.Decode.{decode_query}
use grimlocker_public.Gql.Query.Decode.Roundtrip.{decode_query-encode}
use grimlocker_public.Gql.Validator.{SessionInfo, validate_frame}
use grimlocker_public.Gql.Validator.WellFormed.{IsWellFormed}
use grimlocker_public.Gql.Validator.Access.{IsAuthorized}
use grimlocker_public.Gql.Validator.Accept.{validate_frame_iff}
use grimlocker_public.Gql.Message.{frame_of, new_query_frame, request_opcode}

pub decode_frame-encode :
    (f : Frame) → IsValid f → (d : List ℕ) × (encode f ≡ some d) × (decode_frame d ≡ ok f)
decode_frame-encode f v = (header f ++ f.payload, encode-layout f, decode-header f v)

request_opcode-known : (q : Query) → is_valid_opcode (request_opcode q) ≡ true
request_opcode-known q = ground arith

request_opcode-asks :
    (q : Query) → (request_opcode q ≡ opcode_query) ⊎ (request_opcode q ≡ opcode_mutate)
request_opcode-asks q = ground arith

module _ (walk_sizes walk_writes walk : Fields → Fields)
    (walks : (fs : Fields) → Perm (walk fs) fs) where
  -- A query that can be encoded, is well formed for the opcode of its kind and that the session may
  -- make reaches the server as it was sent, its map in the order of writing, if its payload is
  -- within the limit: the frame is built, encoded, decoded and validated.
  pub request_arrives :
      (q : Query) (s : SessionInfo)
      → Perm (walk_sizes q.fields) q.fields
      → Perm q.fields (walk_writes q.fields)
      → IsEncodable q
      → bytes_eq q.operation [] ≡ false
      → IsBytes (layout q (walk_writes q.fields))
      → length (layout q (walk_writes q.fields)) ≤ max_payload_size
      → IsWellFormed (record q { fields = walk_writes q.fields }) (request_opcode q)
      → IsAuthorized q s
      → (f : Frame) × (d : List ℕ) × (new_query_frame walk_sizes walk_writes q ≡ some f)
        × (encode f ≡ some d)
        × (decode_frame d ≡ ok f)
        × (validate_frame walk f (some s) ≡ ok (some (record q { fields = walk_writes q.fields })))
  unfolding new_query_frame
  request_arrives q s sizes writes v given bytes fits formed allowed =
      let payload : List ℕ = layout q (walk_writes q.fields) in
      let q' : Query = record q { fields = walk_writes q.fields } in
      let f : Frame = frame_of (request_opcode q) payload in
      let (p, written, decoded, _) =
        decode_query-encode walk_sizes walk_writes q [] sizes writes v given in
      let laid_out = Layout.encode-layout walk_sizes walk_writes q (Perm.trans sizes writes) in
      let same : p ≡ payload = cc in
      let valid : IsValid f = record {
        current = refl;
        known = request_opcode-known q;
        flags_fit = omega arith;
        sized = omega (arith, fits);
        fits = omega (arith, fits);
        bytes = bytes;
      } in
      let (d, sent, received) = decode_frame-encode f valid in
      let arrives = validate_frame_iff walk walks f (some s) q' in
      (
        f,
        d,
        rw laid_out refl,
        sent,
        received,
        arrives.1 (record {
          current = refl;
          asks = request_opcode-asks q;
          fits = omega (arith, fits);
          decodes = subst (λ x. decode_query x [] ≡ ok q') same decoded;
          well_formed = formed;
          authorized = (
            s,
            refl,
            record {
              unlocked = allowed.unlocked;
              has_handle = allowed.has_handle;
              has_credentials = allowed.has_credentials;
              own_namespace = allowed.own_namespace;
            },
          );
        }),
      )
