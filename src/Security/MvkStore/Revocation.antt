-- ===== src/Security/MvkStore/Revocation.antt =====
-- RevokeAll of engine/security/mvk_store.go leaves nothing of any key.
use mathlib.Core.List.{Nodup-nil, Perm}
use grimlocker_public.Base.{
  ℕ, zero, suc, ◌≡◌, ◌≢◌, refl, sym, ap, subst, ◌∙◌, Bool, true, false, List, [], ◌∷◌, ◌++◌, Option,
  none, some, arith, length, All, ◌⊎◌, inl, inr, get_or, bytes_eq_refl, bytes_eq, ◌==◌, ==_iff,
  Option-cases, Bool-cases,
}
use grimlocker_public.Base.Dict.{
  Key, Dict, lookup, erase, lookup-insert, lookup-erase, bytes_eq_iff,
}
use grimlocker_public.Base.Dict.Distinct.{Distinct, insert-Distinct, erase-Distinct, lookup-perm}
use grimlocker_public.Security.SecretGuard.{zeroize, zeroize_at}
use grimlocker_public.Security.MvkStore.{
  MvkStore, create, store, revoke, revoke_each, revoke_all, Call, stores, revokes, revokes_all,
  step, run,
}

abbrev pub IsWiped : List ℕ → Type 0
IsWiped = All (λ b. b ≡ 0)

zeroize-IsWiped : (bs : List ℕ) → IsWiped (zeroize bs)
zeroize-IsWiped [] = tt
zeroize-IsWiped (b ∷ bs) = (refl, zeroize-IsWiped bs)

zeroize_at-IsWiped : (heap : List (List ℕ)) (a : ℕ) → IsWiped (get_or (zeroize_at a heap) a [])
zeroize_at-IsWiped [] a = tt
zeroize_at-IsWiped (x ∷ xs) zero = zeroize-IsWiped x
zeroize_at-IsWiped (x ∷ xs) (suc a) = zeroize_at-IsWiped xs a

-- A buffer of zeros stays one.
zeroize_at_keeps :
    (heap : List (List ℕ)) (i a : ℕ)
    → IsWiped (get_or heap a [])
    → IsWiped (get_or (zeroize_at i heap) a [])
zeroize_at_keeps [] i a h = tt
zeroize_at_keeps (x ∷ xs) zero zero h = zeroize-IsWiped x
zeroize_at_keeps (x ∷ xs) zero (suc a) h = h
zeroize_at_keeps (x ∷ xs) (suc i) zero h = h
zeroize_at_keeps (x ∷ xs) (suc i) (suc a) h = zeroize_at_keeps xs i a h

-- A buffer that a new key does not take.
append_keeps :
    (heap : List (List ℕ)) (key : List ℕ) (a : ℕ)
    → IsWiped (get_or heap a [])
    → a ≢ length heap
    → IsWiped (get_or (heap ++ key ∷ []) a [])
append_keeps [] key zero h n = absurd (n refl)
append_keeps [] key (suc a) h n = tt
append_keeps (x ∷ xs) key zero h n = h
append_keeps (x ∷ xs) key (suc a) h n = append_keeps xs key a h (λ e. n (ap suc e))

-- Every buffer that is not zeroed is that of a handle.
pub record Tracked (s : MvkStore) : Type 0 where
  pub distinct : Distinct s.handles
  pub tracked : (a : ℕ) → IsWiped (get_or s.heap a []) ⊎ ((h : Key) × lookup h s.handles ≡ some a)

-- Stores draw a handle that is not in use, and walks go through all entries.
abbrev pub IsFair : MvkStore → Call → Type 0
IsFair s (stores allocates handle key) = lookup handle s.handles ≡ none
IsFair s (revokes handle) = Unit
IsFair s (revokes_all walk) = Perm s.handles (walk s.handles)

unfoldable pub AreFair : MvkStore → List Call → Type 0
AreFair s [] = Unit
AreFair s (c ∷ cs) = IsFair s c × AreFair (step s c) cs

store-Tracked :
    (allocates : Bool) (handle : Key) (key : List ℕ) (s : MvkStore)
    → lookup handle s.handles ≡ none
    → Tracked s
    → Tracked (store allocates handle key s).1
unfolding store
store-Tracked false handle key s free t = t
store-Tracked true handle key s free t = record {
  distinct = insert-Distinct handle (length s.heap) s.handles t.distinct;
  tracked = λ a. elim (t.tracked a) [
    | inl wiped ↦ elim (Bool-cases (a == length s.heap)) [
      | inl last ↦ inr (
        handle,
        lookup-insert handle handle (length s.heap) s.handles
            ∙ rw (bytes_eq_refl handle) (ap some (sym ((==_iff a (length s.heap)).0 last))),
      )
      | inr earlier ↦ inl (append_keeps s.heap key a wiped (ground (arith, earlier)))
    ]
    | inr (h, found) ↦ inr (
      h,
      lookup-insert handle h (length s.heap) s.handles
          ∙ ground (arith, bytes_eq_iff handle h, found, free),
    )
  ];
}

revoke_each_stays :
    (m : Dict ℕ) (s : MvkStore) (a : ℕ)
    → IsWiped (get_or s.heap a [])
    → IsWiped (get_or (revoke_each m s).heap a [])
unfolding revoke_each
revoke_each_stays [] s a h = h
revoke_each_stays ((k, w) ∷ m) s a h =
    revoke_each_stays m (record { handles = erase k s.handles; heap = zeroize_at w s.heap }) a
      (zeroize_at_keeps s.heap w a h)

revoke_each-wipes :
    (m : Dict ℕ) (s : MvkStore) (h : Key) (a : ℕ)
    → lookup h m ≡ some a
    → IsWiped (get_or (revoke_each m s).heap a [])
unfolding revoke_each
revoke_each-wipes [] s h a found = absurd cc
revoke_each-wipes ((k, w) ∷ m) s h a found =
    let s' : MvkStore = record { handles = erase k s.handles; heap = zeroize_at w s.heap } in
    elim (Bool-cases (bytes_eq k h)) [
      | inl same ↦
          let here : w ≡ a = ground arith in
          revoke_each_stays m s' a (
            subst (λ i. IsWiped (get_or (zeroize_at w s.heap) i [])) here
              (zeroize_at-IsWiped s.heap w))
      | inr other ↦ revoke_each-wipes m s' h a (ground arith)
    ]

revoke_each-erases :
    (m : Dict ℕ) (s : MvkStore) (k : Key)
    → lookup k (revoke_each m s).handles
      ≡ (elim (lookup k m) as (λ _. Option ℕ) [ none ↦ lookup k s.handles | some _ ↦ none ])
unfolding revoke_each
revoke_each-erases [] s k = refl
revoke_each-erases ((j, w) ∷ m) s k =
    let s' : MvkStore = record { handles = erase j s.handles; heap = zeroize_at w s.heap } in
    ground (arith, revoke_each-erases m s' k, lookup-erase j k s.handles)

revoke_all_lem :
    (walk : Dict ℕ → Dict ℕ) (s : MvkStore)
    → Perm s.handles (walk s.handles)
    → Tracked s
    → ((a : ℕ) → IsWiped (get_or (revoke_all walk s).heap a []))
      × ((k : Key) → lookup k (revoke_all walk s).handles ≡ none)
unfolding revoke_all
revoke_all_lem walk s p t =
    let same : (k : Key) → lookup k s.handles ≡ lookup k (walk s.handles) =
      λ k. lookup-perm (hlevel) k p t.distinct in
    (
      λ a. elim (t.tracked a) [
        | inl wiped ↦ revoke_each_stays (walk s.handles) s a wiped
        | inr (h, found) ↦ revoke_each-wipes (walk s.handles) s h a (sym (same h) ∙ found)
      ],
      λ k. ground (arith, revoke_each-erases (walk s.handles) s k, same k),
    )

revoke-Tracked : (handle : Key) (s : MvkStore) → Tracked s → Tracked (revoke handle s)
unfolding revoke
revoke-Tracked handle s t = elim (Option-cases (lookup handle s.handles)) [
  | inl unknown ↦ rw (revoke, unknown) t
  | inr (addr, known) ↦
      rw (revoke, known)
        (record {
          distinct = erase-Distinct handle s.handles t.distinct;
          tracked = λ a. elim (t.tracked a) [
            | inl wiped ↦ inl (zeroize_at_keeps s.heap addr a wiped)
            | inr (h, found) ↦ elim (Bool-cases (bytes_eq handle h)) [
              | inl same ↦
                  let e : handle ≡ h = (bytes_eq_iff handle h).0 same in
                  let here : addr ≡ a = ground (arith, known, found) in
                  inl (
                    subst (λ i. IsWiped (get_or (zeroize_at addr s.heap) i [])) here
                      (zeroize_at-IsWiped s.heap addr))
              | inr other ↦ inr (h, lookup-erase handle h s.handles ∙ rw other found)
            ]
          ];
        })
]

revoke_each-Distinct :
    (m : Dict ℕ) (s : MvkStore) → Distinct s.handles → Distinct (revoke_each m s).handles
unfolding revoke_each
revoke_each-Distinct [] s d = d
revoke_each-Distinct ((k, w) ∷ m) s d =
    revoke_each-Distinct m (record { handles = erase k s.handles; heap = zeroize_at w s.heap })
      (erase-Distinct k s.handles d)

step-Tracked : (c : Call) (s : MvkStore) → IsFair s c → Tracked s → Tracked (step s c)
unfolding step revoke_all
step-Tracked (stores allocates handle key) s f t = store-Tracked allocates handle key s f t
step-Tracked (revokes handle) s f t = revoke-Tracked handle s t
step-Tracked (revokes_all walk) s f t = record {
  distinct = revoke_each-Distinct (walk s.handles) s t.distinct;
  tracked = λ a. inl ((revoke_all_lem walk s f t).0 a);
}

run-Tracked : (cs : List Call) (s : MvkStore) → AreFair s cs → Tracked s → Tracked (run s cs)
unfolding run AreFair
run-Tracked [] s f t = t
run-Tracked (c ∷ cs) s f t = run-Tracked cs (step s c) f.1 (step-Tracked c s f.0 t)

create-Tracked : Tracked create
unfolding create
create-Tracked = record { distinct = Nodup-nil; tracked = λ a. inl tt }

-- After any calls on a new store in which every stored key gets a handle that is not in use, a
-- RevokeAll that walks the handles in any order leaves zeros in every buffer that ever held a
-- key, and no handle.
pub revoke_all-run :
    (cs : List Call) (walk : Dict ℕ → Dict ℕ)
    → AreFair create cs
    → Perm (run create cs).handles (walk (run create cs).handles)
    → ((a : ℕ) → IsWiped (get_or (revoke_all walk (run create cs)).heap a []))
      × ((k : Key) → lookup k (revoke_all walk (run create cs)).handles ≡ none)
revoke_all-run cs walk f p =
    revoke_all_lem walk (run create cs) p (run-Tracked cs create f create-Tracked)
