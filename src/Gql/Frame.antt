-- ===== src/Gql/Frame.antt =====
-- engine/gql/frame.go: the wire form of a frame, an 8-byte header and a payload. Bytes, flags and
-- sizes are numbers; `none` from `encode` would be a panic of an indexed write.
pub mod Roundtrip
use grimlocker_public.Base.{
  ℕ, ◌+◌, ◌%◌, ◌^◌, ◌≤◌, ◌<◌, ◌≡◌, true, not, List, [], ◌∷◌, Option, length, get_or, take, drop,
  replicate, ltb, ◌==◌, if◌then◌else◌,
}
use grimlocker_public.Base.Maybe.{◌>>=◌}
use grimlocker_public.Base.Outcome.{Outcome, ok, err}
use grimlocker_public.Wire.{be16, be32, uint16, uint32, put, copy_at, IsBytes}
use grimlocker_public.Gql.Opcodes.{version, frame_header_size, max_payload_size, is_valid_opcode}

pub record Frame : Type 0 where
  pub version : ℕ
  pub opcode : ℕ
  pub flags : ℕ
  pub payload_size : ℕ
  pub payload : List ℕ

pub data FrameError : Type 0 where
  too_short : ℕ → FrameError
  unsupported_version : ℕ → FrameError
  unknown_opcode : ℕ → FrameError
  payload_too_large : ℕ → FrameError
  length_mismatch : ℕ → ℕ → FrameError

unfoldable pub encode : Frame → Option (List ℕ)
encode f = do
  a ← put (replicate (frame_header_size + length f.payload) 0) 0 (f.version ∷ [])
  b ← put a 1 (f.opcode ∷ [])
  c ← put b 2 (be16 f.flags)
  d ← put c 4 (be32 (length f.payload % 2 ^ 32))
  copy_at d 8 f.payload

unfoldable pub decode_frame : List ℕ → Outcome FrameError Frame
decode_frame data' =
    let version' = get_or data' 0 0 in
    let opcode = get_or data' 1 0 in
    let flags = uint16 (drop 2 data') in
    let payload_size = uint32 (drop 4 data') in
    let expected_len = frame_header_size + payload_size in
    let payload : List ℕ = if ltb 0 payload_size then take payload_size (drop 8 data') else [] in
    if ltb (length data') frame_header_size
    then err (too_short (length data'))
    else if not (version' == version)
    then err (unsupported_version version')
    else if not (is_valid_opcode opcode)
    then err (unknown_opcode opcode)
    else if ltb max_payload_size payload_size
    then err (payload_too_large payload_size)
    else if not (length data' == expected_len)
    then err (length_mismatch (length data') expected_len)
    else ok (record {
      version = version';
      opcode = opcode;
      flags = flags;
      payload_size = payload_size;
      payload = payload;
    })

-- The frames that the protocol allows.
pub record IsValid (f : Frame) : Type 0 where
  pub current : f.version ≡ version
  pub known : is_valid_opcode f.opcode ≡ true
  pub flags_fit : f.flags < 65536
  pub sized : f.payload_size ≡ length f.payload
  pub fits : f.payload_size ≤ max_payload_size
  pub bytes : IsBytes f.payload
