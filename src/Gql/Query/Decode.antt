-- ===== src/Gql/Query/Decode.antt =====
-- DecodeQuery of engine/gql/types.go. `panics` stands for a slice expression out of range.
pub mod Reading
pub mod Roundtrip
pub mod Safety
use Prim.Native.String.{String}
use grimlocker_public.Base.{
  ℕ, zero, suc, ◌+◌, List, [], length, get_or, take, drop, ltb, leb, bytes_eq, if◌then◌else◌,
}
use grimlocker_public.Base.Dict.{insert}
use grimlocker_public.Base.Outcome.{Outcome, ok, err, ◌>>=◌, ◌>>◌, fail_if, map_err}
use grimlocker_public.Wire.{uint16, uint32}
use grimlocker_public.Gql.Opcodes.{max_fields_count}
use grimlocker_public.Gql.Query.{Fields, Query}

pub data FieldError : Type 0 where
  no_length_prefix : FieldError
  field_truncated : ℕ → ℕ → FieldError

pub data DecodeError : Type 0 where
  payload_too_short : DecodeError
  field_count_exceeds : ℕ → DecodeError
  in_field : String → FieldError → DecodeError
  truncated_at_field : ℕ → DecodeError
  in_key : ℕ → FieldError → DecodeError
  truncated_at_value : ℕ → DecodeError
  in_value : ℕ → FieldError → DecodeError
  truncated_at_limit : DecodeError
  truncated_at_offset : DecodeError
  panics : DecodeError

unfoldable pub deserialize_field : List ℕ → Outcome FieldError (List ℕ × ℕ)
deserialize_field d =
    let l = uint16 d in
    if ltb (length d) 2
    then err no_length_prefix
    else if ltb (length d) (2 + l)
    then err (field_truncated (2 + l) (length d))
    else ok (take l (drop 2 d), 2 + l)

-- `payload[off:]`
unfoldable pub slice_from : List ℕ → ℕ → Outcome DecodeError (List ℕ)
slice_from p off = if leb off (length p) then ok (drop off p) else err panics

-- `s, n, err = deserializeField(payload[off:])` with its error test, and `off += n`.
unfoldable pub read_field :
    (FieldError → DecodeError) → List ℕ → ℕ → Outcome DecodeError (List ℕ × ℕ)
read_field wrap p off = do
  rest ← slice_from p off
  r ← map_err wrap (deserialize_field rest)
  ok (r.0, off + r.1)

-- `binary.BigEndian.Uint32(payload[off:])` after its length test, and `off += 4`.
unfoldable pub read_uint32 : DecodeError → List ℕ → ℕ → Outcome DecodeError (ℕ × ℕ)
read_uint32 e p off = do
  fail_if (ltb (length p) (off + 4)) e
  rest ← slice_from p off
  ok (uint32 rest, off + 4)

-- The loop over the entries: rounds left, index, payload, offset, and the map so far.
unfoldable pub decode_fields : ℕ → ℕ → List ℕ → ℕ → Fields → Outcome DecodeError (Fields × ℕ)
decode_fields zero i p off m = ok (m, off)
decode_fields (suc n) i p off m = do
  fail_if (leb (length p) off) (truncated_at_field i)
  k ← read_field (in_key i) p off
  fail_if (leb (length p) k.1) (truncated_at_value i)
  v ← read_field (in_value i) p k.1
  decode_fields n (i + 1) p v.1 (insert k.0 v.0 m)

-- Credentials may be missing.
unfoldable pub decode_credentials : List ℕ → ℕ → Outcome DecodeError (List ℕ)
decode_credentials p off =
    let present = do c ← read_field (in_field "credentials") p off; ok c.0
    in if ltb off (length p) then present else ok []

unfoldable pub decode_query : List ℕ → List ℕ → Outcome DecodeError Query
decode_query payload op = do
  fail_if (ltb (length payload) 1) payload_too_short
  let field_count : ℕ = get_or payload 0 0
  fail_if (ltb max_fields_count field_count) (field_count_exceeds field_count)
  o ← read_field (in_field "operation") payload 1
  n ← read_field (in_field "namespace") payload o.1
  e ← read_field (in_field "entry_id") payload n.1
  c ← read_field (in_field "category") payload e.1
  t ← read_field (in_field "title") payload c.1
  fs ← decode_fields field_count 0 payload t.1 []
  l ← read_uint32 truncated_at_limit payload fs.1
  s ← read_uint32 truncated_at_offset payload l.1
  creds ← decode_credentials payload s.1
  ok (record {
    namespace = n.0;
    operation = if bytes_eq o.0 [] then op else o.0;
    entry_id = e.0;
    category = c.0;
    title = t.0;
    fields = fs.0;
    credentials = creds;
    limit = l.0;
    offset = s.0;
  })
