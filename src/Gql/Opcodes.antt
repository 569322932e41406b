-- ===== src/Gql/Opcodes.antt =====
-- engine/gql/opcodes.go: the protocol's constants, and the classification of its operations. An
-- Operation is a Go string, the list of its bytes.
use Prim.Native.Char.{code}
use Prim.Native.String.{String}
use grimlocker_public.Base.{
  ℕ, ◌*◌, ◌≡◌, refl, Bool, true, false, not, ◌&&◌, ◌||◌, List, [], ◌∷◌, arith, ◌==◌, bytes_eq,
  bytes_eq→eq, Bool-cases, inl, inr,
}

-- The bytes of an ASCII literal.
abbrev pub codes : String → List ℕ
codes (String.◌∷◌ letter rest) = code letter ∷ codes rest
codes String.[] = []

abbrev pub version : ℕ
version = 1

abbrev pub opcode_query : ℕ
opcode_query = 0x01

abbrev pub opcode_mutate : ℕ
opcode_mutate = 0x02

abbrev pub opcode_result : ℕ
opcode_result = 0x03

abbrev pub opcode_error : ℕ
opcode_error = 0x04

abbrev pub flag_none : ℕ
flag_none = 0x0000

abbrev pub frame_header_size : ℕ
frame_header_size = 8

abbrev pub max_payload_size : ℕ
max_payload_size = 16 * 1024 * 1024

abbrev pub max_namespace_len : ℕ
max_namespace_len = 128

abbrev pub max_entry_id_len : ℕ
max_entry_id_len = 64

abbrev pub max_category_len : ℕ
max_category_len = 32

abbrev pub max_field_key_len : ℕ
max_field_key_len = 64

abbrev pub max_field_value_len : ℕ
max_field_value_len = 8192

abbrev pub max_fields_count : ℕ
max_fields_count = 100

abbrev pub is_valid_opcode : ℕ → Bool
is_valid_opcode o =
    (o == opcode_query) || (o == opcode_mutate) || (o == opcode_result) || (o == opcode_error)

-- A `switch` over string cases.
abbrev pub one_of : List ℕ → List (List ℕ) → Bool
one_of s [] = false
one_of s (c ∷ cs) = bytes_eq s c || one_of s cs

abbrev known_operations : List (List ℕ)
known_operations =
    codes "list_entries"
    ∷ codes "get_entry"
    ∷ codes "query_entries"
    ∷ codes "create_entry"
    ∷ codes "update_entry"
    ∷ codes "delete_entry"
    ∷ codes "search_entries"
    ∷ codes "file.list_folder"
    ∷ codes "file.create_folder"
    ∷ codes "file.rename_folder"
    ∷ codes "file.delete_folder"
    ∷ codes "file.move"
    ∷ codes "file.ingest"
    ∷ codes "file.download"
    ∷ codes "file.upload_progress"
    ∷ codes "workspace.list"
    ∷ codes "workspace.create"
    ∷ codes "workspace.switch"
    ∷ codes "workspace.rename"
    ∷ codes "workspace.delete"
    ∷ codes "sync.list_peers"
    ∷ codes "sync.trigger"
    ∷ codes "audit.list"
    ∷ codes "tool.ssh_gen"
    ∷ codes "tool.recovery_phrase"
    ∷ codes "system.health"
    ∷ []

abbrev read_operations : List (List ℕ)
read_operations =
    codes "list_entries"
    ∷ codes "get_entry"
    ∷ codes "query_entries"
    ∷ codes "search_entries"
    ∷ codes "file.list_folder"
    ∷ codes "file.download"
    ∷ codes "file.upload_progress"
    ∷ codes "workspace.list"
    ∷ codes "sync.list_peers"
    ∷ codes "audit.list"
    ∷ codes "tool.recovery_phrase"
    ∷ codes "system.health"
    ∷ []

abbrev write_operations : List (List ℕ)
write_operations =
    codes "create_entry"
    ∷ codes "update_entry"
    ∷ codes "delete_entry"
    ∷ codes "file.create_folder"
    ∷ codes "file.rename_folder"
    ∷ codes "file.delete_folder"
    ∷ codes "file.move"
    ∷ codes "file.ingest"
    ∷ codes "workspace.create"
    ∷ codes "workspace.switch"
    ∷ codes "workspace.rename"
    ∷ codes "workspace.delete"
    ∷ codes "sync.trigger"
    ∷ codes "tool.ssh_gen"
    ∷ []

unfoldable pub is_valid_operation : List ℕ → Bool
is_valid_operation op = one_of op known_operations

unfoldable pub is_read_operation : List ℕ → Bool
is_read_operation op = one_of op read_operations

unfoldable pub is_write_operation : List ℕ → Bool
is_write_operation op = one_of op write_operations

-- A test that holds of every case holds of a string that the switch accepts.
abbrev all_cases : (List ℕ → Bool) → List (List ℕ) → Bool
all_cases p [] = true
all_cases p (c ∷ cs) = p c && all_cases p cs

one_of_sound :
    (p : List ℕ → Bool) (s : List ℕ) (cs : List (List ℕ))
    → all_cases p cs ≡ true
    → one_of s cs ≡ true
    → p s ≡ true
one_of_sound p s [] h m = cc
one_of_sound p s (c ∷ cs) h m = elim (Bool-cases (bytes_eq s c)) [
  | inl same ↦ rw (bytes_eq→eq s c same) (ground arith)
  | inr other ↦ one_of_sound p s cs (ground arith) (ground arith)
]

read_valid : (op : List ℕ) → is_read_operation op ≡ true → is_valid_operation op ≡ true
unfolding is_read_operation is_valid_operation
read_valid op = one_of_sound is_valid_operation op read_operations refl

write_valid : (op : List ℕ) → is_write_operation op ≡ true → is_valid_operation op ≡ true
unfolding is_write_operation is_valid_operation
write_valid op = one_of_sound is_valid_operation op write_operations refl

abbrev read_or_write : List ℕ → Bool
read_or_write op = is_read_operation op || is_write_operation op

valid_read_or_write : (op : List ℕ) → is_valid_operation op ≡ true → read_or_write op ≡ true
unfolding is_read_operation is_valid_operation is_write_operation
valid_read_or_write op = one_of_sound read_or_write op known_operations refl

read_not_write : (op : List ℕ) → is_read_operation op ≡ true → not (is_write_operation op) ≡ true
unfolding is_read_operation is_write_operation
read_not_write op = one_of_sound (λ o. not (is_write_operation o)) op read_operations refl

-- Every known operation reads or writes and none does both; an unknown one does neither.
pub operations_partition :
    (op : List ℕ)
    → (is_valid_operation op ≡ (is_read_operation op || is_write_operation op))
      × ((is_read_operation op && is_write_operation op) ≡ false)
operations_partition op =
    ground (arith, read_valid op, write_valid op, valid_read_or_write op, read_not_write op)

-- An operation that writes has a name.
pub write_nonempty : is_write_operation [] ≡ false
unfolding is_write_operation
write_nonempty = refl
