-- ===== src/Bridge/Offsets/Reading.antt =====
-- A reader of JSON arrays of integers, and that it gives back the offsets that
-- engine/bridge/rustbridge_helpers.go encodes.
use mathlib.Core.List.{append_assoc, append-nil}
use grimlocker_public.Base.{
  ◌≡◌, refl, ap, sym, ◌∙◌, ℕ, suc, true, false, ltb, List, [], ◌∷◌, ◌++◌, Option, none, some, map,
  All, ◌==◌, if◌then◌else◌, arith,
}
use grimlocker_public.Base.Int.{ℤ, pos, negsuc}
use grimlocker_public.Base.Decimal.{
  decimal_ℤ, read_decimal_ℤ, read_decimal_ℤ-decimal_ℤ, IsSigned, decimal_ℤ-IsSigned, digits-first,
}
use grimlocker_public.Bridge.Offsets.{encode_from, encode_offsets_json}

abbrev more : List ℕ → Option (List (List ℕ)) → Option (List (List ℕ))
more item none = none
more item (some items) = some (item ∷ items)

abbrev closing : List ℕ → List ℕ → Option (List (List ℕ))
closing item [] = some (item ∷ [])
closing item (c ∷ cs) = none

-- The items up to the bracket that ends the text, of which `item` was read already.
unfoldable pub items : List ℕ → List ℕ → Option (List (List ℕ))
items item [] = none
items item (c ∷ cs) =
    let next = more item (items [] cs) in
    let rest = items (item ++ c ∷ []) cs in
    if c == 93 then closing item cs else if c == 44 then next else rest

abbrev both : Option ℤ → Option (List ℤ) → Option (List ℤ)
both (some i) (some is) = some (i ∷ is)
both _ _ = none

unfoldable pub integers : List (List ℕ) → Option (List ℤ)
integers [] = some []
integers (item ∷ items) = both (read_decimal_ℤ item) (integers items)

-- No item at all stands for one that is empty.
abbrev array : Option (List (List ℕ)) → Option (List ℤ)
array none = none
array (some ([] ∷ [])) = some []
array (some items) = integers items

unfoldable pub read_array : List ℕ → Option (List ℤ)
read_array [] = none
read_array (c ∷ cs) = if c == 91 then array (items [] cs) else none

items-signed :
    (item s rest : List ℕ) → All IsSigned s → items item (s ++ rest) ≡ items (item ++ s) rest
unfolding items
items-signed item [] rest h = ap (λ t. items t rest) (sym (append-nil item))
items-signed item (c ∷ cs) rest h =
    let open_yet : (c == 93) ≡ false = ground (arith, h.0.0, h.0.1) in
    let inside : (c == 44) ≡ false = ground (arith, h.0.0, h.0.1) in
    rw (items, open_yet, inside)
      (items-signed (item ++ c ∷ []) cs rest h.1
        ∙ ap (λ t. items t rest) (append_assoc item (c ∷ []) cs))

encode_from-suc :
    (i : ℕ) (o : ℤ) (os : List ℤ)
    → encode_from (suc i) (o ∷ os) ≡ 44 ∷ (decimal_ℤ o ++ encode_from (suc (suc i)) os)
unfolding encode_from
encode_from-suc i o os = let later : ltb 0 (suc i) ≡ true = ground arith in rw later refl

items-encode_from :
    (item : List ℕ) (i : ℕ) (os : List ℤ)
    → items item (encode_from (suc i) os ++ 93 ∷ []) ≡ some (item ∷ map decimal_ℤ os)
unfolding items encode_from
items-encode_from item i [] = refl
items-encode_from item i (o ∷ os) = rw (encode_from-suc i o os) (
    ap (λ t. more item (items [] t)) (append_assoc (decimal_ℤ o) _ (93 ∷ []))
    ∙ ap (more item) (
        items-signed [] (decimal_ℤ o) _ (decimal_ℤ-IsSigned o)
        ∙ items-encode_from (decimal_ℤ o) (suc i) os))

integers-decimals : (os : List ℤ) → integers (map decimal_ℤ os) ≡ some os
unfolding integers
integers-decimals [] = refl
integers-decimals (o ∷ os) = rw (read_decimal_ℤ-decimal_ℤ o, integers-decimals os) refl

-- The first item is not empty.
array-decimals : (o : ℤ) (os : List ℤ) → array (some (map decimal_ℤ (o ∷ os))) ≡ some (o ∷ os)
array-decimals (pos n) os =
    let (c, cs, e) = digits-first n n [] in
    ap (λ t. array (some (t ∷ map decimal_ℤ os))) e
    ∙ ap (λ t. integers (t ∷ map decimal_ℤ os)) (sym e)
    ∙ integers-decimals (pos n ∷ os)
array-decimals (negsuc n) os = integers-decimals (negsuc n ∷ os)

-- Reading the encoding of offsets as an array of integers gives back the offsets.
pub read_array-encode_offsets_json : (os : List ℤ) → read_array (encode_offsets_json os) ≡ some os
unfolding read_array encode_offsets_json encode_from items
read_array-encode_offsets_json [] = refl
read_array-encode_offsets_json (o ∷ os) =
    ap (λ t. array (items [] t)) (append_assoc (decimal_ℤ o) (encode_from 1 os) (93 ∷ []))
    ∙ ap array (items-signed [] (decimal_ℤ o) _ (decimal_ℤ-IsSigned o))
    ∙ ap array (items-encode_from (decimal_ℤ o) 0 os)
    ∙ array-decimals o os
