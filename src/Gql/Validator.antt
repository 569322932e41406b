-- ===== src/Gql/Validator.antt =====
-- engine/gql/validator.go: the two stages of frame validation. An error carries its field (or
-- operation) and reason as the source spells them; the formatted details are left out. Go walks a
-- map in an order that it chooses: `walk`.
pub mod Strings
pub mod WellFormed
pub mod Access
pub mod Accept
use Prim.Native.String.{String}
use grimlocker_public.Base.{
  ℕ, Bool, true, false, not, ◌&&◌, ◌||◌, List, [], ◌∷◌, Option, none, some, length, get_or, ltb,
  leb, ◌==◌, bytes_eq, if◌then◌else◌,
}
use grimlocker_public.Base.Outcome.{Outcome, ok, err, ◌>>=◌, ◌>>◌, fail_if, map_err}
use grimlocker_public.Gql.Opcodes.{
  codes, version, opcode_query, opcode_mutate, opcode_result, opcode_error, max_payload_size,
  max_namespace_len, max_entry_id_len, max_category_len, max_field_key_len, max_field_value_len,
  max_fields_count, is_valid_opcode, is_read_operation, is_write_operation,
}
use grimlocker_public.Gql.Frame.{Frame}
use grimlocker_public.Gql.Query.{Fields, Query}
use grimlocker_public.Gql.Query.Decode.{decode_query}
use grimlocker_public.Gql.Utf8.{runes}

-- What the interface SessionInfo answers while a frame is validated.
pub record SessionInfo : Type 0 where
  pub is_unlocked : Bool
  pub active_handle : List ℕ
  pub user_id : List ℕ
  pub has_role : List ℕ → Bool

pub data ValidationError : Type 0 where
  syntactic : (field reason : String) → ValidationError
  semantic : (operation : List ℕ) (reason : String) → ValidationError

abbrev pub Check : Type 0
Check = Outcome ValidationError (Unit {0})

unfoldable pub is_ident_char : ℕ → Bool
is_ident_char c =
    if leb b'a' c && leb c b'z'
    then true
    else if leb b'A' c && leb c b'Z'
    then true
    else if leb b'0' c && leb c b'9'
    then true
    else if (c == b'_') || (c == b'-') || (c == b'.')
    then true
    else false

abbrev pub is_empty : List ℕ → Bool
is_empty s = bytes_eq s []

unfoldable pub validate_string_field : String → List ℕ → Bool → ℕ → Check
validate_string_field name value required max_len = do
  fail_if (required && is_empty value) (syntactic name "required field is empty")
  fail_if (ltb max_len (length value)) (syntactic name "exceeds maximum length")
  ok tt

-- The loops over the runes.
unfoldable pub check_ident_chars : String → List ℕ → Check
check_ident_chars name [] = ok tt
check_ident_chars name (c ∷ cs) =
    fail_if (not (is_ident_char c)) (syntactic name "invalid character in identifier")
    >> check_ident_chars name cs

unfoldable pub check_text_chars : String → List ℕ → Check
check_text_chars name [] = ok tt
check_text_chars name (c ∷ cs) =
    fail_if (ltb c 0x20 && not (c == b'\t')) (syntactic name "control character in text field")
    >> (fail_if (c == 0x7F) (syntactic name "DEL character in text field")
        >> check_text_chars name cs)

unfoldable pub validate_identifier : String → List ℕ → Check
validate_identifier name value =
    if is_empty value then ok tt else check_ident_chars name (runes value)

unfoldable pub validate_printable : String → List ℕ → Check
validate_printable name value =
    if is_empty value then ok tt else check_text_chars name (runes value)

-- The loop over the entries of the map.
unfoldable pub validate_fields : Fields → Check
validate_fields [] = ok tt
validate_fields ((k, v) ∷ fs) = do
  validate_string_field "fields.key" k false max_field_key_len
  validate_identifier "fields.key" k
  validate_string_field "fields.value" v false max_field_value_len
  validate_printable "fields.value" v
  validate_fields fs

-- `if value != "" { … }`
abbrev pub if_given : List ℕ → Check → Check
if_given value check = if is_empty value then ok tt else check

unfoldable pub validate_query : (Fields → Fields) → Query → ℕ → Check
validate_query walk q opcode = do
  validate_string_field "namespace" q.namespace true max_namespace_len
  validate_identifier "namespace" q.namespace
  if_given q.entry_id do
    validate_string_field "entry_id" q.entry_id false max_entry_id_len
    validate_identifier "entry_id" q.entry_id
  if_given q.category do
    validate_string_field "category" q.category false max_category_len
    validate_identifier "category" q.category
  if_given q.title do
    validate_string_field "title" q.title false max_field_value_len
    validate_printable "title" q.title
  fail_if (ltb max_fields_count (length q.fields)) (syntactic "fields" "too many fields")
  validate_fields (walk q.fields)
  fail_if ((opcode == opcode_query) && not (is_read_operation q.operation))
      (syntactic "operation" "opcode mismatch")
  fail_if ((opcode == opcode_mutate) && not (is_write_operation q.operation))
      (syntactic "operation" "opcode mismatch")
  ok tt

abbrev admin : List ℕ
admin = codes "admin"

unfoldable pub authorize : Query → SessionInfo → Check
authorize q s = do
  fail_if (not s.is_unlocked) (semantic q.operation "vault locked")
  fail_if (is_empty s.active_handle) (semantic q.operation "no active MVK handle")
  fail_if (is_write_operation q.operation && (length q.credentials == 0))
      (semantic q.operation "write operation requires credentials")
  fail_if
      (not (is_empty s.user_id)
        && (not (is_empty q.namespace)
            && (not (bytes_eq q.namespace s.user_id) && not (s.has_role admin))))
      (semantic q.operation "namespace does not match session user")
  ok tt

unfoldable pub validate_acl : Query → Option SessionInfo → Check
unfolding authorize
validate_acl q none = err (semantic q.operation "no active session")
validate_acl q (some s) = authorize q s

unfoldable pub validate_payload_bytes : List ℕ → Check
validate_payload_bytes payload = do
  fail_if (length payload == 0) (syntactic "payload" "zero-length")
  fail_if (ltb max_fields_count (get_or payload 0 0)) (syntactic "field_count" "exceeds maximum")
  ok tt

-- Decoding and both stages, once the header has passed.
unfoldable pub validate_request :
    (Fields → Fields) → Frame → Option SessionInfo → Outcome ValidationError Query
validate_request walk f session = do
  fail_if (ltb max_payload_size f.payload_size) (syntactic "payload_size" "exceeds maximum")
  fail_if (length f.payload == 0) (syntactic "payload" "empty payload")
  validate_payload_bytes f.payload
  fail_if (not ((f.opcode == opcode_query) || (f.opcode == opcode_mutate)))
      (syntactic "opcode" "opcode not allowed for query validation")
  q ← map_err (λ _. syntactic "payload" "decode failed") (decode_query f.payload [])
  validate_query walk q f.opcode
  validate_acl q session
  ok q

-- ValidateFrame: the decoded query, or no query (`nil, nil`) for result and error frames.
unfoldable pub validate_frame :
    (Fields → Fields) → Frame → Option SessionInfo → Outcome ValidationError (Option Query)
validate_frame walk f session = do
  fail_if (not (f.version == version)) (syntactic "version" "unsupported version")
  fail_if (not (is_valid_opcode f.opcode)) (syntactic "opcode" "unknown opcode")
  let request = validate_request walk f session >>= λ q. ok (some q)
  if (f.opcode == opcode_result) || (f.opcode == opcode_error) then ok none else request
