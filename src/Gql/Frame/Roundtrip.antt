-- ===== src/Gql/Frame/Roundtrip.antt =====
-- Encoding and decoding of frames are inverse to one another.
use mathlib.Core.List.{append-nil}
use grimlocker_public.Base.{
  ℕ, ◌+◌, ◌-◌, ◌*◌, ◌%◌, ◌^◌, ◌≡◌, ap, ◌∙◌, ◌↔◌, List, [], ◌∷◌, ◌++◌, some, arith, length, drop,
  replicate, length-replicate, drop_all, length-drop, take_all, nil_of_length,
}
use grimlocker_public.Base.Maybe.{◌>>=◌}
use grimlocker_public.Base.Outcome.{ok}
use grimlocker_public.Wire.{
  be16, be32, put, copy_at, IsBytes, uint16-be16, uint32-be32, be16-uint16, be32-uint32,
}
use grimlocker_public.Wire.Buffers.{put_lem, copy_at_lem}
use grimlocker_public.Gql.Frame.{Frame, encode, decode_frame, IsValid}

room_left : (n : ℕ) (xs : List ℕ) → length (drop n xs) ≡ length xs - n
room_left n xs = length-drop n xs

ruleset room = (arith, room_left)

-- The bytes of a frame.
abbrev pub header : Frame → List ℕ
header f = f.version ∷ f.opcode ∷ (be16 f.flags ++ be32 (length f.payload % 2 ^ 32))

-- Every write lands in the buffer, which ends up full.
fill :
    (f : Frame) (zeros : List ℕ)
    → length zeros ≡ 8 + length f.payload
    → (do
      a ← put zeros 0 (f.version ∷ [])
      b ← put a 1 (f.opcode ∷ [])
      c ← put b 2 (be16 f.flags)
      d ← put c 4 (be32 (length f.payload % 2 ^ 32))
      copy_at d 8 f.payload)
      ≡ some (header f ++ f.payload)
fill f zeros e =
    let size = be32 (length f.payload % 2 ^ 32) in
    rw (
      put_lem [] zeros (f.version ∷ []) (omega arith),
      put_lem (f.version ∷ []) (drop 1 zeros) (f.opcode ∷ []) (omega room),
      put_lem (f.version ∷ f.opcode ∷ []) (drop 1 (drop 1 zeros)) (be16 f.flags) (omega room),
      put_lem (f.version ∷ f.opcode ∷ be16 f.flags) (drop 2 (drop 1 (drop 1 zeros))) size
          (omega room),
      copy_at_lem (header f) (drop 4 (drop 2 (drop 1 (drop 1 zeros)))) f.payload (omega room),
      drop_all (length f.payload) (drop 4 (drop 2 (drop 1 (drop 1 zeros)))) (omega room),
      append-nil f.payload,
    )

pub encode-layout : (f : Frame) → encode f ≡ some (header f ++ f.payload)
unfolding encode
encode-layout f =
    fill f (replicate (8 + length f.payload) 0) (length-replicate {A = ℕ} (8 + length f.payload) 0)

pub decode-header : (f : Frame) → IsValid f → decode_frame (header f ++ f.payload) ≡ ok f
unfolding decode_frame
decode-header f v = ground (
  arith,
  uint16-be16 f.flags [] v.flags_fit,
  uint32-be32 (length f.payload % 2 ^ 32) [],
  take_all f.payload_size f.payload,
  nil_of_length f.payload,
)

header_of_decode :
    (d : List ℕ) (f : Frame)
    → IsBytes d
    → decode_frame d ≡ ok f
    → IsValid f × (header f ++ f.payload ≡ d)
unfolding decode_frame
header_of_decode (a ∷ b ∷ c ∷ e ∷ g ∷ h ∷ i ∷ j ∷ rest) f by p = ground (
  arith,
  be16-uint16 c e,
  be32-uint32 g h i j,
  take_all (g * 16777216 + h * 65536 + i * 256 + j) rest,
  nil_of_length rest,
)
header_of_decode _ f by p = ground arith

-- On bytes, a slice decodes to a frame exactly if the frame is one that the protocol allows and
-- encodes to that slice: decoding inverts encoding, and no second spelling of a frame is accepted.
pub decode_frame_iff :
    (d : List ℕ) (f : Frame)
    → IsBytes d
    → (decode_frame d ≡ ok f) ↔ (IsValid f × (encode f ≡ some d))
decode_frame_iff d f by = (accepted, decodes)
  where
    accepted : decode_frame d ≡ ok f → IsValid f × (encode f ≡ some d)
    accepted p = let (v, e) = header_of_decode d f by p in (v, encode-layout f ∙ ap (λ x. some x) e)

    decodes : IsValid f × (encode f ≡ some d) → decode_frame d ≡ ok f
    decodes (v, e) =
        let same : header f ++ f.payload ≡ d = cc (encode-layout f) in
        rw same at (decode-header f v)
