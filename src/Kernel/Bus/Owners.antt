-- ===== src/Kernel/Bus/Owners.antt =====
-- Which handlers stand under a channel: those of the registered modules that own it.
use mathlib.Core.List.{append_assoc, append-nil}
use grimlocker_public.Base.{
  ◌≡◌, refl, sym, ap, ◌∙◌, Bool, false, ◌||◌, List, [], ◌∷◌, ◌++◌, ℕ, none, some, arith, bytes_eq,
  All, if◌then◌else◌, Bool-cases, inl, inr,
}
use grimlocker_public.Base.Dict.{Key, Dict, lookup, insert, erase, lookup-insert, bytes_eq_iff}
use grimlocker_public.Base.Dict.Distinct.{Distinct, head-absent, tail-Distinct}
use grimlocker_public.Kernel.Bus.{
  Module, NamedHandler, Table, handlers_at, without, add_channels, remove_channels,
}

module _ {H : Type 0} where
  abbrev pub named : Module H → NamedHandler H
  named m = record { id = m.id; handler = m.handle }

  -- Every module stands under its identifier.
  abbrev pub Keyed : Key × Module H → Type 0
  Keyed e = e.0 ≡ e.1.id

  pub handlers_at-insert :
      (c k : Key) (hs : List (NamedHandler H)) (t : Table H)
      → handlers_at c (insert k hs t) ≡ (if bytes_eq k c then hs else handlers_at c t)
  handlers_at-insert c k hs t = ground (arith, lookup-insert k c hs t)

  without-append :
      (id : Key) (xs ys : List (NamedHandler H))
      → without id (xs ++ ys) ≡ without id xs ++ without id ys
  without-append id [] ys = refl
  without-append id (x ∷ xs) ys = ground (arith, without-append id xs ys)

  without_idem :
      (id : Key) (xs : List (NamedHandler H)) → without id (without id xs) ≡ without id xs
  without_idem id [] = refl
  without_idem id (x ∷ xs) = ground (arith, without_idem id xs)

-- Whether a list of channels has `c`.
abbrev pub mentions : (List ℕ → List ℕ) → Key → List Key → Bool
mentions to_upper c [] = false
mentions to_upper c (ch ∷ chs) = bytes_eq (to_upper ch) c || mentions to_upper c chs

module _ {H : Type 0} (to_upper : List ℕ → List ℕ) where
  -- A handler once for each channel of the list that is `c`.
  abbrev pub copies : NamedHandler H → Key → List Key → List (NamedHandler H)
  copies h c [] = []
  copies h c (ch ∷ chs) =
      let rest = copies h c chs in if bytes_eq (to_upper ch) c then h ∷ rest else rest

  -- The handlers of the registered modules that own a channel, in the order of registration.
  unfoldable pub owners : Key → Dict (Module H) → List (NamedHandler H)
  owners c [] = []
  owners c ((k, m) ∷ ms) = copies (named m) c m.channels ++ owners c ms

  pub owners-append :
      (c : Key) (ms ns : Dict (Module H)) → owners c (ms ++ ns) ≡ owners c ms ++ owners c ns
  unfolding owners
  owners-append c [] ns = refl
  owners-append c ((k, m) ∷ ms) ns =
      ap (λ r. copies (named m) c m.channels ++ r) (owners-append c ms ns)
      ∙ sym (append_assoc (copies (named m) c m.channels) (owners c ms) (owners c ns))

  pub handlers_at-add_channels :
      (c : Key) (h : NamedHandler H) (chs : List Key) (t : Table H)
      → handlers_at c (add_channels to_upper h chs t) ≡ handlers_at c t ++ copies h c chs
  handlers_at-add_channels c h [] t = sym (append-nil (handlers_at c t))
  handlers_at-add_channels c h (ch ∷ chs) t =
      let k = to_upper ch in
      let t' = insert k (handlers_at k t ++ h ∷ []) t in
      handlers_at-add_channels c h chs t' ∙ elim (Bool-cases (bytes_eq k c)) [
        | inl same ↦
            let e : k ≡ c = (bytes_eq_iff k c).0 same in
            rw (handlers_at-insert c k (handlers_at k t ++ h ∷ []) t, same, e)
              (append_assoc (handlers_at c t) (h ∷ []) (copies h c chs))
        | inr other ↦ rw (handlers_at-insert c k (handlers_at k t ++ h ∷ []) t, other) refl
      ]

  pub handlers_at-remove_channels :
      (c id : Key) (chs : List Key) (t : Table H)
      → handlers_at c (remove_channels to_upper id chs t)
        ≡ (if mentions to_upper c chs then without id (handlers_at c t) else handlers_at c t)
  handlers_at-remove_channels c id [] t = refl
  handlers_at-remove_channels c id (ch ∷ chs) t =
      let k = to_upper ch in
      let hs = without id (handlers_at k t) in
      ground (
        arith,
        handlers_at-remove_channels c id chs (insert k hs t),
        handlers_at-insert c k hs t,
        bytes_eq_iff k c,
        without_idem id (handlers_at c t),
      )

  copies_unmentioned :
      (h : NamedHandler H) (c : Key) (chs : List Key)
      → mentions to_upper c chs ≡ false
      → copies h c chs ≡ []
  copies_unmentioned h c [] e = refl
  copies_unmentioned h c (ch ∷ chs) e = ground (arith, copies_unmentioned h c chs)

  without-copies :
      (id c : Key) (h : NamedHandler H) (chs : List Key)
      → without id (copies h c chs) ≡ (if bytes_eq h.id id then [] else copies h c chs)
  without-copies id c h [] = ground arith
  without-copies id c h (ch ∷ chs) = ground (arith, without-copies id c h chs)

  pub without-owners :
      (id c : Key) (ms : Dict (Module H))
      → All Keyed ms
      → without id (owners c ms) ≡ owners c (erase id ms)
  unfolding owners
  without-owners id c [] h = refl
  without-owners id c ((k, m) ∷ ms) h =
      let split = without-append id (copies (named m) c m.channels) (owners c ms) in
      ground (arith, split, without-copies id c (named m) m.channels, without-owners id c ms)

  owners_unregistered :
      (id c : Key) (ms : Dict (Module H))
      → lookup id ms ≡ none
      → owners c (erase id ms) ≡ owners c ms
  unfolding owners
  owners_unregistered id c [] h = refl
  owners_unregistered id c ((k, m) ∷ ms) h = ground (arith, owners_unregistered id c ms)

  -- A module that does not own the channel is not missed there.
  pub owners_unmentioned :
      (id c : Key) (ms : Dict (Module H)) (m : Module H)
      → Distinct ms
      → lookup id ms ≡ some m
      → mentions to_upper c m.channels ≡ false
      → owners c (erase id ms) ≡ owners c ms
  unfolding owners
  owners_unmentioned id c [] m d found e = cc
  owners_unmentioned id c ((k, n) ∷ ms) m d found e = ground (
    arith,
    bytes_eq_iff k id,
    copies_unmentioned (named m) c m.channels e,
    owners_unregistered id c ms,
    head-absent k n ms d,
    owners_unmentioned id c ms m (tail-Distinct k n ms d),
  )
