-- ===== src/Kernel/Uuid/Unique.antt =====
-- When two texts of engine/kernel/uuid.go are the same.
use Prim.Native.Nat.{min, bit_and, bit_or}
use mathlib.Core.List.{append-nil}
use grimlocker_public.Base.{
  ◌≡◌, refl, ap, ap₂, sym, ◌∙◌, ℕ, zero, suc, ◌+◌, ◌-◌, ◌%◌, ◌<◌, ◌↔◌, List, [], ◌∷◌, ◌++◌, length,
  get_or, set, take, drop, arith, length-set, length-take, length-drop, get_or-set,
  get_or-set_other, set-set, set-set_swap, take-append-drop, drop-drop, drop_all, All-take,
  All-drop, subst,
}
use grimlocker_public.Base.Bits.{version_byte, variant_byte}
use grimlocker_public.Wire.{IsByte, IsBytes}
use grimlocker_public.Kernel.Uuid.{stamp, group, id_text, new_id}
use grimlocker_public.Security.Zkp.Hex.{encode_prefix}

get_or-IsByte : (b : List ℕ) (i : ℕ) → IsBytes b → get_or b i 0 < 256
get_or-IsByte [] i h = omega arith
get_or-IsByte (x ∷ b) zero h = h.0
get_or-IsByte (x ∷ b) (suc i) h = get_or-IsByte b i h.1

-- The bytes of an array at 6 and 8, replaced.
abbrev pub with_bytes : List ℕ → ℕ → ℕ → List ℕ
with_bytes b x y = set (set b 6 x) 8 y

-- The bits that the version and the variant do not take, and zeros for these.
abbrev pub random_bits : List ℕ → List ℕ
random_bits b = with_bytes b (get_or b 6 0 % 16) (get_or b 8 0 % 64)

pub stamp-with_bytes :
    (b : List ℕ)
    → IsBytes b
    → stamp b ≡ with_bytes b (64 + get_or b 6 0 % 16) (128 + get_or b 8 0 % 64)
unfolding stamp
stamp-with_bytes b h =
    let x = bit_or (bit_and (get_or b 6 0) 15) 64 in
    let other : get_or (set b 6 x) 8 0 ≡ get_or b 8 0 = get_or-set_other b 8 6 x 0 (omega arith) in
    rw
      (
        other,
        version_byte (get_or b 6 0) (get_or-IsByte b 6 h),
        variant_byte (get_or b 8 0) (get_or-IsByte b 8 h),
      )
      refl

-- The two bytes after a replacement, replaced again by functions of them.
with_bytes-again :
    (b : List ℕ) (x y : ℕ) (f g : ℕ → ℕ)
    → length b ≡ 16
    → let s = with_bytes b x y in
      with_bytes s (f (get_or s 6 0)) (g (get_or s 8 0)) ≡ with_bytes b (f x) (g y)
with_bytes-again b x y f g h =
    let at_six : get_or (with_bytes b x y) 6 0 ≡ x =
      get_or-set_other (set b 6 x) 6 8 y 0 (omega arith) ∙ get_or-set b 6 x 0 (omega arith) in
    let at_eight : get_or (with_bytes b x y) 8 0 ≡ y =
      get_or-set (set b 6 x) 8 y 0 (omega (arith, length-set b 6 x)) in
    ap₂ (λ u v. with_bytes (with_bytes b x y) (f u) (g v)) at_six at_eight
    ∙ ap (λ t. set t 8 (g y)) (set-set_swap (set b 6 x) 8 6 y (f x) (omega arith))
    ∙ set-set (set (set b 6 x) 6 (f x)) 8 y (g y)
    ∙ ap (λ t. set t 8 (g y)) (set-set b 6 x (f x))

-- Equal groups of digits in front of a dash stand for equal bytes.
group-eq :
    (first n : ℕ) (a b r s : List ℕ)
    → length a ≡ length b
    → IsBytes a
    → IsBytes b
    → group first n a ++ r ≡ group first n b ++ s
    → (take n (drop first a) ≡ take n (drop first b)) × (r ≡ s)
group-eq first n a b r s l p q e =
    encode_prefix (take n (drop first a)) (take n (drop first b)) r s
      (length-take n (drop first a)
        ∙ ap (min n) (length-drop first a ∙ ap (λ k. k - first) l ∙ sym (length-drop first b))
        ∙ sym (length-take n (drop first b)))
      (All-take IsByte n (drop first a) (All-drop IsByte first a p))
      (All-take IsByte n (drop first b) (All-drop IsByte first b q)) e

drop-eq :
    (i n : ℕ) (a b : List ℕ)
    → take n (drop i a) ≡ take n (drop i b)
    → drop (i + n) a ≡ drop (i + n) b
    → drop i a ≡ drop i b
drop-eq i n a b h k =
    sym (take-append-drop n (drop i a))
    ∙ ap₂ (λ x y. x ++ y) h (drop-drop i n a ∙ k ∙ sym (drop-drop i n b))
    ∙ take-append-drop n (drop i b)

id_text-injective :
    (a b : List ℕ)
    → length a ≡ 16
    → length b ≡ 16
    → IsBytes a
    → IsBytes b
    → id_text a ≡ id_text b
    → a ≡ b
unfolding id_text
id_text-injective a b k l p q e =
    let same = k ∙ sym l in
    let (g0, r0) = group-eq 0 4 a b _ _ same p q e in
    let (g1, r1) = group-eq 4 2 a b _ _ same p q (ap (drop 1) r0) in
    let (g2, r2) = group-eq 6 2 a b _ _ same p q (ap (drop 1) r1) in
    let (g3, r3) = group-eq 8 2 a b _ _ same p q (ap (drop 1) r2) in
    let last : group 10 6 a ++ [] ≡ group 10 6 b ++ [] =
      append-nil _ ∙ ap (drop 1) r3 ∙ sym (append-nil _) in
    let (g4, _) = group-eq 10 6 a b [] [] same p q last in
    let none_left : drop 16 a ≡ drop 16 b =
      drop_all 16 a (omega arith) ∙ sym (drop_all 16 b (omega arith)) in
    drop-eq 0 4 a b g0
      (drop-eq 4 2 a b g1 (drop-eq 6 2 a b g2 (drop-eq 8 2 a b g3 (drop-eq 10 6 a b g4 none_left))))

length-with_bytes : (b : List ℕ) (x y : ℕ) → length (with_bytes b x y) ≡ length b
length-with_bytes b x y = length-set (set b 6 x) 8 y ∙ length-set b 6 x

set-IsBytes : (b : List ℕ) (i v : ℕ) → IsBytes b → IsByte v → IsBytes (set b i v)
set-IsBytes [] i v h k = tt
set-IsBytes (x ∷ b) zero v h k = (k, h.1)
set-IsBytes (x ∷ b) (suc i) v h k = (h.0, set-IsBytes b i v h.1 k)

pub length-stamp : (b : List ℕ) → IsBytes b → length (stamp b) ≡ length b
length-stamp b h = ap length (stamp-with_bytes b h) ∙ length-with_bytes b _ _

pub stamp-IsBytes : (b : List ℕ) → IsBytes b → IsBytes (stamp b)
stamp-IsBytes b h =
    subst IsBytes (sym (stamp-with_bytes b h))
      (set-IsBytes _ 8 _ (set-IsBytes b 6 _ h (omega arith)) (omega arith))

abbrev clear : List ℕ → List ℕ
clear s = with_bytes s (get_or s 6 0 - 64) (get_or s 8 0 - 128)

cleared :
    (b : List ℕ)
    → length b ≡ 16
    → clear (with_bytes b (64 + get_or b 6 0 % 16) (128 + get_or b 8 0 % 64)) ≡ random_bits b
cleared b h =
    let six : 64 + get_or b 6 0 % 16 - 64 ≡ get_or b 6 0 % 16 = omega arith in
    let eight : 128 + get_or b 8 0 % 64 - 128 ≡ get_or b 8 0 % 64 = omega arith in
    with_bytes-again b (64 + get_or b 6 0 % 16) (128 + get_or b 8 0 % 64) (λ x. x - 64)
      (λ y. y - 128) h
    ∙ ap₂ (with_bytes b) six eight

abbrev again : List ℕ → List ℕ
again s = with_bytes s (64 + get_or s 6 0) (128 + get_or s 8 0)

stamped :
    (b : List ℕ)
    → length b ≡ 16
    → again (random_bits b) ≡ with_bytes b (64 + get_or b 6 0 % 16) (128 + get_or b 8 0 % 64)
stamped b h =
    with_bytes-again b (get_or b 6 0 % 16) (get_or b 8 0 % 64) (λ x. 64 + x) (λ y. 128 + y) h

-- Two IDs of 16 random bytes each are the same text just when the bytes agree in all bits but the
-- version's and the variant's.
pub new_id_iff :
    (a b : List ℕ)
    → length a ≡ 16
    → length b ≡ 16
    → IsBytes a
    → IsBytes b
    → (new_id a ≡ new_id b) ↔ (random_bits a ≡ random_bits b)
new_id_iff a b k l p q =
    let sa = stamp-with_bytes a p in
    let sb = stamp-with_bytes b q in
    (
      λ e.
          let stamps =
            id_text-injective (stamp a) (stamp b) (length-stamp a p ∙ k) (length-stamp b q ∙ l)
              (stamp-IsBytes a p) (stamp-IsBytes b q) e in
          sym (cleared a k) ∙ ap clear (sym sa ∙ stamps ∙ sb) ∙ cleared b l,
      λ e. ap id_text (sa ∙ sym (stamped a k) ∙ ap again e ∙ stamped b l ∙ sym sb),
    )
