-- ===== src/Gql/Message.antt =====
-- The constructors of frames in engine/gql/frame.go, and the result type of engine/gql/types.go.
-- `marshal` is json.Marshal on a result: its bytes, or none with an error, which the code drops.
pub mod EndToEnd
use grimlocker_public.Base.{
  ℕ, ◌%◌, ◌^◌, Bool, false, List, [], Option, none, some, length, if◌then◌else◌,
}
use grimlocker_public.Base.Int.{ℤ}
use grimlocker_public.Base.Dict.{Dict}
use grimlocker_public.Base.Maybe.{◌>>=◌}
use grimlocker_public.Gql.Opcodes.{
  version, opcode_query, opcode_mutate, opcode_result, opcode_error, flag_none, is_write_operation,
}
use grimlocker_public.Gql.Frame.{Frame}
use grimlocker_public.Gql.Query.{Fields, Query}
use grimlocker_public.Gql.Query.Encode.{encode}

pub record GqlEntry : Type 0 where
  pub id : List ℕ
  pub category : List ℕ
  pub entry_type : List ℕ
  pub title : List ℕ
  pub fields : Fields
  pub created_at : ℤ
  pub updated_at : ℤ

pub record GqlResult : Type 0 where
  pub request_id : List ℕ
  pub success : Bool
  pub entries : List GqlEntry
  pub total_count : ℕ
  pub error_code : ℤ
  pub error_msg : List ℕ

abbrev pub frame_of : ℕ → List ℕ → Frame
frame_of opcode payload = record {
  version = version;
  opcode = opcode;
  flags = flag_none;
  payload_size = length payload % 2 ^ 32;
  payload = payload;
}

abbrev pub request_opcode : Query → ℕ
request_opcode q = if is_write_operation q.operation then opcode_mutate else opcode_query

-- NewQueryFrame; `none` would be a panic of Encode.
unfoldable pub new_query_frame : (walk_sizes walk_writes : Fields → Fields) → Query → Option Frame
new_query_frame walk_sizes walk_writes q = do
  payload ← encode walk_sizes walk_writes q
  some (frame_of (request_opcode q) payload)

module _ (marshal : GqlResult → Option (List ℕ)) where
  -- `payload, _ := result.EncodeResult()`
  abbrev result_payload : GqlResult → List ℕ
  result_payload r = elim (marshal r) [ none ↦ [] | some bs ↦ bs ]

  unfoldable pub new_result_frame : GqlResult → Frame
  new_result_frame r = frame_of opcode_result (result_payload r)

  unfoldable pub new_error_frame : ℤ → List ℕ → Frame
  new_error_frame code msg = frame_of opcode_error (
      result_payload (record {
        request_id = [];
        success = false;
        entries = [];
        total_count = 0;
        error_code = code;
        error_msg = msg;
      }))
