-- ===== src/Bridge/Tests.antt =====
-- Offsets that are encoded and read back, and the theorem at them.
use grimlocker_public.Base.{◌≡◌, refl, List, [], ◌∷◌, some}
use grimlocker_public.Base.Int.{ℤ, pos, negsuc}
use grimlocker_public.Base.Decimal.{digits}
use grimlocker_public.Gql.Opcodes.{codes}
use grimlocker_public.Bridge.Offsets.{encode_from, encode_offsets_json}
use grimlocker_public.Bridge.Offsets.Reading.{read_array, read_array-encode_offsets_json}

abbrev offsets : List ℤ
offsets = pos 7 ∷ negsuc 11 ∷ pos 1024 ∷ []

offsets_encoded : encode_offsets_json offsets ≡ codes "[7,-12,1024]"
unfolding encode_offsets_json encode_from digits
offsets_encoded = refl

read_array-encode_offsets_json_example : read_array (encode_offsets_json offsets) ≡ some offsets
read_array-encode_offsets_json_example = read_array-encode_offsets_json offsets
