-- ===== src/Gql/Query/Decode/Reading.antt =====
-- Reading at an offset, seen as taking what stands there off the front of what is left.
use mathlib.Core.List.{append_assoc}
use grimlocker_public.Base.{
  ℕ, ◌+◌, ◌^◌, ◌≤◌, ◌<◌, ◌≡◌, refl, sym, ap, ◌∙◌, List, [], ◌∷◌, ◌++◌, arith, length, drop,
  length-append, length-drop, drop-drop, drop-length_append, take-length_append, All, ltb, le→ltb,
  lt→leb, subst, ◌%◌, false,
}
use grimlocker_public.Base.Dict.{insert}
use grimlocker_public.Base.Dict.Distinct.{insert_all}
use grimlocker_public.Base.Outcome.{ok}
use grimlocker_public.Wire.{be32, uint16-be16, uint32-be32}
use grimlocker_public.Gql.Query.{Fields, AreShort}
use grimlocker_public.Gql.Query.Encode.Layout.{field_bytes, fields_bytes, length-field_bytes}
use grimlocker_public.Gql.Query.Decode.{
  FieldError, DecodeError, in_key, in_value, deserialize_field, slice_from, read_field, read_uint32,
  decode_fields,
}

-- From offset `off` on, the payload `p` reads `rest`.
pub record At (p : List ℕ) (off : ℕ) (rest : List ℕ) : Type 0 where
  pub within : off ≤ length p
  pub sees : drop off p ≡ rest

-- How much is left.
pub At-length :
    {p : List ℕ} {off : ℕ} {rest : List ℕ} → At p off rest → length p ≡ off + length rest
At-length {p} {off} at = omega (arith, at.within, length-drop off p, ap length at.sees)

-- Moving past a part of it.
pub At-past :
    {p : List ℕ} {off : ℕ} {rest : List ℕ} (a : List ℕ)
    → At p off (a ++ rest)
    → At p (off + length a) rest
At-past {p} {off} {rest} a at = record {
  within = omega (arith, At-length at, length-append a rest);
  sees =
      sym (drop-drop off (length a) p) ∙ (ap (drop (length a)) at.sees ∙ drop-length_append a rest);
}

deserialize_lem :
    (s rest : List ℕ)
    → length s < 65536
    → deserialize_field (field_bytes s ++ rest) ≡ ok (s, 2 + length s)
unfolding deserialize_field field_bytes
deserialize_lem s rest h = ground (
  arith,
  uint16-be16 (length s % 65536) (s ++ rest),
  take-length_append s rest,
  length-append s rest,
)

slice_lem : {p : List ℕ} {off : ℕ} {rest : List ℕ} → At p off rest → slice_from p off ≡ ok rest
unfolding slice_from
slice_lem {p} {off} at = rw at.sees (ground arith)

pub read_field_lem :
    {p : List ℕ} {off : ℕ} (w : FieldError → DecodeError) (s rest : List ℕ)
    → At p off (field_bytes s ++ rest)
    → length s < 65536
    → read_field w p off ≡ ok (s, off + (2 + length s))
unfolding read_field
read_field_lem w s rest at h = rw (slice_lem at, deserialize_lem s rest h)

pub read_uint32_lem :
    {p : List ℕ} {off : ℕ} (e : DecodeError) (n : ℕ) (rest : List ℕ)
    → At p off (be32 n ++ rest)
    → n < 2 ^ 32
    → read_uint32 e p off ≡ ok (n, off + 4)
unfolding read_uint32
read_uint32_lem {p} {off} e n rest at h =
    let room : ltb (length p) (off + 4) ≡ false = le→ltb _ _ (omega (arith, At-length at)) in
    rw (room, slice_lem at, uint32-be32 n rest h)

-- Past a field, past a number.
pub past_field :
    {p : List ℕ} {off : ℕ} (s rest : List ℕ)
    → At p off (field_bytes s ++ rest)
    → At p (off + (2 + length s)) rest
past_field {p} {off} s rest at =
    subst (λ n. At p (off + n) rest) (length-field_bytes s) (At-past (field_bytes s) at)

pub past_uint32 :
    {p : List ℕ} {off : ℕ} (n : ℕ) (rest : List ℕ) → At p off (be32 n ++ rest) → At p (off + 4) rest
past_uint32 n rest at = At-past (be32 n) at

pub more_left :
    {p : List ℕ} {off : ℕ} (s rest : List ℕ) → At p off (field_bytes s ++ rest) → off < length p
more_left s rest at =
    omega (arith, At-length at, length-append (field_bytes s) rest, length-field_bytes s)

pub decode_fields_lem :
    (fs : Fields) (i : ℕ) (p : List ℕ) (off : ℕ) (m : Fields) (rest : List ℕ)
    → All AreShort fs
    → At p off (fields_bytes fs ++ rest)
    → (off' : ℕ) × (decode_fields (length fs) i p off m ≡ ok (insert_all fs m, off'))
      × At p off' rest
unfolding decode_fields fields_bytes
decode_fields_lem [] i p off m rest short at = (off, refl, at)
decode_fields_lem ((k, v) ∷ fs) i p off m rest short at =
    let key : At p off (field_bytes k ++ (field_bytes v ++ (fields_bytes fs ++ rest))) =
      subst (At p off)
        (append_assoc (field_bytes k) (field_bytes v ++ fields_bytes fs) rest
          ∙ ap (λ x. field_bytes k ++ x) (append_assoc (field_bytes v) (fields_bytes fs) rest))
        at in
    let value = past_field k (field_bytes v ++ (fields_bytes fs ++ rest)) key in
    let next = past_field v (fields_bytes fs ++ rest) value in
    let (off', e, end) = decode_fields_lem fs (i + 1) p _ (insert k v m) rest short.1 next in
    (
      off',
      rw
          (
            lt→leb _ _ (more_left k _ key),
            read_field_lem (in_key i) k _ key short.0.0,
            lt→leb _ _ (more_left v _ value),
            read_field_lem (in_value i) v _ value short.0.1,
          )
          e,
      end,
    )
