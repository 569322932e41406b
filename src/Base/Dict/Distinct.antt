-- ===== src/Base/Dict/Distinct.antt =====
-- Maps in which every key stands once, and what does not depend on the order of their entries.
use mathlib.Core.List.{
  Perm, Permᴰ, Nodup, Nodup-cons, Mem, mem-cons, not-mem-nil, mem-cons_self, mem-cons_of_mem,
}
use mathlib.Core.List.Perm
use mathlib.Core.Logic.Or
use mathlib.Core.Logic.{∥∥₁_elim}
use grimlocker_public.Base.Dict.{
  Key, Dict, lookup, insert, erase, lookup-insert, lookup-erase, bytes_eq_iff,
}
use grimlocker_public.Base.Tests.{Bool-cases}
use grimlocker_public.Base.Lists.{bytes_eq, All, All-prop, length}
use mathlib.Core.Path.{◌≡◌, refl, sym, ◌∙◌, ap, subst}
use mathlib.Core.Logic.{inl, inr, ◌≢◌}
use mathlib.Core.HLevel.{¬_prop}
use mathlib.Core.List.{List, [], ◌∷◌, ◌++◌, map, append_assoc, append-nil}
use mathlib.Core.Option.{Option, none}
use native.Mathlib.Omega.{arith}
use native.Mathlib.Nat.{ℕ_set}
use Prim.Native.Nat.{suc}

module _ {ℓ} {V : Type ℓ} where
  abbrev pub keys : Dict V → List Key
  keys = map (λ e. e.0)

  abbrev pub Distinct : Dict V → Type 0
  Distinct m = Nodup (keys m)

  -- An entry of the map is found by a member of its keys.
  lookup_absent : (k : Key) (m : Dict V) → ¬ Mem k (keys m) → lookup k m ≡ none
  lookup_absent k [] h = refl
  lookup_absent k ((j, v) ∷ m) h = elim (Bool-cases (bytes_eq j k)) [
    | inl same ↦
        absurd (h (subst (λ x. Mem x (j ∷ keys m)) ((bytes_eq_iff j k).0 same) mem-cons_self))
    | inr other ↦ rw other (lookup_absent k m (λ r. h (mem-cons_of_mem j r)))
  ]

  pub head-absent : (k : Key) (v : V) (m : Dict V) → Distinct ((k, v) ∷ m) → lookup k m ≡ none
  head-absent k v m d = lookup_absent k m ((Nodup-cons.0 d).0)

  pub tail-Distinct : (k : Key) (v : V) (m : Dict V) → Distinct ((k, v) ∷ m) → Distinct m
  tail-Distinct k v m d = (Nodup-cons.0 d).1

  pub insert_new :
      (k : Key) (v : V) (m : Dict V) → lookup k m ≡ none → insert k v m ≡ m ++ (k, v) ∷ []
  insert_new k v [] h = refl
  insert_new k v ((j, w) ∷ m) h = ground (arith, insert_new k v m)

  -- The entries of a list put into a map one after another.
  abbrev pub insert_all : Dict V → Dict V → Dict V
  insert_all [] m = m
  insert_all ((k, v) ∷ fs) m = insert_all fs (insert k v m)

  lookup-append_self : (k : Key) (v : V) (m fs : Dict V) → lookup k (m ++ (k, v) ∷ fs) ≢ none
  lookup-append_self k v [] fs = ground (arith, bytes_eq_iff k k)
  lookup-append_self k v ((j, w) ∷ m) fs = ground (arith, lookup-append_self k v m fs)

  -- A key that stands behind `m` in a map without repetitions is not in `m`.
  absent_before :
      (k : Key) (v : V) (m fs : Dict V) → Distinct (m ++ (k, v) ∷ fs) → lookup k m ≡ none
  absent_before k v [] fs d = refl
  absent_before k v ((j, w) ∷ m) fs d = ground (
    arith,
    bytes_eq_iff j k,
    head-absent j w (m ++ (k, v) ∷ fs) d,
    lookup-append_self k v m fs,
    absent_before k v m fs (tail-Distinct j w (m ++ (k, v) ∷ fs) d),
  )

  insert_all-append : (fs m : Dict V) → Distinct (m ++ fs) → insert_all fs m ≡ m ++ fs
  insert_all-append [] m d = sym (append-nil m)
  insert_all-append ((k, v) ∷ fs) m d =
      let e : (m ++ (k, v) ∷ []) ++ fs ≡ m ++ (k, v) ∷ fs = append_assoc m ((k, v) ∷ []) fs in
      rw (insert_new k v m (absent_before k v m fs d))
        (insert_all-append fs (m ++ (k, v) ∷ []) (rw e d) ∙ e)

  -- Entries with different keys are put into an empty map as they stand.
  pub insert_all-nil : (fs : Dict V) → Distinct fs → insert_all fs [] ≡ fs
  insert_all-nil fs d = insert_all-append fs [] d

  pub perm-Distinct : {m n : Dict V} → Perm m n → Distinct m → Distinct n
  perm-Distinct p = Perm.nodup (Perm.map (λ e. e.0) p)

  lookup-permᴰ : (k : Key) {m n : Dict V} → Permᴰ m n → Distinct m → lookup k m ≡ lookup k n
  lookup-permᴰ k Permᴰ.nil d = refl
  lookup-permᴰ k (Permᴰ.cons {a} {l₁} e p) d =
      ground (arith, lookup-permᴰ k p (tail-Distinct a.0 a.1 l₁ d))
  lookup-permᴰ k (Permᴰ.swap {a} {b} {l} e f) d = ground (
    arith,
    bytes_eq_iff a.0 k,
    bytes_eq_iff b.0 k,
    bytes_eq_iff b.0 a.0,
    head-absent a.0 a.1 (b ∷ l) d,
  )
  lookup-permᴰ k (Permᴰ.trans p r) d =
      lookup-permᴰ k p d ∙ lookup-permᴰ k r (perm-Distinct ∣ p ∣₁ d)

  -- The order of the entries does not change what a key stands for.
  pub lookup-perm :
      IsSet (Option V) → (k : Key) {m n : Dict V} → Perm m n → Distinct m → lookup k m ≡ lookup k n
  lookup-perm set k p d = ∥∥₁_elim p (set _ _) (λ q. lookup-permᴰ k q d)

  All-permᴰ {κ} : (P : Key × V → Type κ) {m n : Dict V} → Permᴰ m n → All P m → All P n
  All-permᴰ P Permᴰ.nil h = h
  All-permᴰ P (Permᴰ.cons e p) h = (subst P e h.0, All-permᴰ P p h.1)
  All-permᴰ P (Permᴰ.swap e f) h = (subst P f h.1.0, (subst P e h.0, h.1.1))
  All-permᴰ P (Permᴰ.trans p r) h = All-permᴰ P r (All-permᴰ P p h)

  -- Nor what holds of every entry.
  pub All-perm {κ} :
      (P : Key × V → Type κ)
      → ((e : Key × V) → IsProp (P e))
      → {m n : Dict V} → Perm m n
      → All P m
      → All P n
  All-perm P prop {n} p h = ∥∥₁_elim p (All-prop P prop n) (λ q. All-permᴰ P q h)

  perm-lengthᴰ : {m n : Dict V} → Permᴰ m n → length m ≡ length n
  perm-lengthᴰ Permᴰ.nil = refl
  perm-lengthᴰ (Permᴰ.cons e p) = ap suc (perm-lengthᴰ p)
  perm-lengthᴰ (Permᴰ.swap e f) = refl
  perm-lengthᴰ (Permᴰ.trans p r) = perm-lengthᴰ p ∙ perm-lengthᴰ r

  pub perm-length : {m n : Dict V} → Perm m n → length m ≡ length n
  perm-length p = ∥∥₁_elim p (ℕ_set _ _) perm-lengthᴰ

  mem-lookup : (k : Key) (m : Dict V) → Mem k (keys m) → lookup k m ≢ none
  mem-lookup k [] h = absurd (not-mem-nil h)
  mem-lookup k ((j, w) ∷ m) h =
      Or.elim (¬_prop) (mem-cons.0 h) (λ e. ground (arith, bytes_eq_iff j k))
        (λ r. ground (arith, mem-lookup k m r))

  -- Assignments keep the keys apart.
  pub insert-Distinct : (k : Key) (v : V) (m : Dict V) → Distinct m → Distinct (insert k v m)
  insert-Distinct k v [] d = Nodup-cons.1 (not-mem-nil, d)
  insert-Distinct k v ((j, w) ∷ m) d = elim (Bool-cases (bytes_eq j k)) [
    | inl same ↦ rw (same, ← (bytes_eq_iff j k).0 same) d
    | inr other ↦ rw other (
        Nodup-cons.1 (
          λ h. mem-lookup j (insert k v m) h (
              ground (
                arith,
                lookup-insert k j v m,
                bytes_eq_iff k j,
                bytes_eq_iff j k,
                head-absent j w m d,
              )),
          insert-Distinct k v m (tail-Distinct j w m d),
        ))
  ]

  pub insert-All {κ} :
      (P : Key × V → Type κ) (k : Key) (v : V) (m : Dict V)
      → P (k, v)
      → All P m
      → All P (insert k v m)
  insert-All P k v [] p h = (p, tt)
  insert-All P k v ((j, w) ∷ m) p h = elim (Bool-cases (bytes_eq j k)) [
    | inl same ↦ rw same (p, h.1)
    | inr other ↦ rw other (h.0, insert-All P k v m p h.1)
  ]

  pub erase_absent : (k : Key) (m : Dict V) → lookup k m ≡ none → erase k m ≡ m
  erase_absent k [] e = refl
  erase_absent k ((j, w) ∷ m) e = ground (arith, erase_absent k m)

  pub erase-Distinct : (k : Key) (m : Dict V) → Distinct m → Distinct (erase k m)
  erase-Distinct k [] d = d
  erase-Distinct k ((j, w) ∷ m) d = elim (Bool-cases (bytes_eq j k)) [
    | inl same ↦ rw same (erase-Distinct k m (tail-Distinct j w m d))
    | inr other ↦ rw other (
        Nodup-cons.1 (
          λ h. mem-lookup j (erase k m) h (ground (arith, lookup-erase k j m, head-absent j w m d)),
          erase-Distinct k m (tail-Distinct j w m d),
        ))
  ]

  pub erase-All {κ} : (P : Key × V → Type κ) (k : Key) (m : Dict V) → All P m → All P (erase k m)
  erase-All P k [] h = h
  erase-All P k ((j, w) ∷ m) h = elim (Bool-cases (bytes_eq j k)) [
    | inl same ↦ rw same (erase-All P k m h.1)
    | inr other ↦ rw other (h.0, erase-All P k m h.1)
  ]
