-- ===== src/Storage/Transaction/Plan.antt =====
-- Commit of engine/storage/blockstore_v2.go as one list of operations on the store, stopped by
-- the first that fails.
use grimlocker_public.Base.{
  ◌≡◌, refl, sym, ap, ◌∙◌, List, [], ◌∷◌, ◌++◌, Option, none, some, map, Option-cases, inl, inr,
}
use grimlocker_public.Base.Dict.{Key}
use grimlocker_public.Storage.Transaction.{BlockStore, commit_deletes, commit_writes}

pub data Operation (B : Type 0) : Type 0 where
  writing : B → Operation B
  deleting : Key → Operation B
  flushing : Operation B

module _ {S E : Type 0} where
  settled :
      (r : Option E × S) → (elim r.0 as (λ _. Option E × S) [ none ↦ (none, r.1) | some _ ↦ r ]) ≡ r
  settled (none, s) = refl
  settled (some e, s) = refl

module _ {S B E : Type 0} (store : BlockStore S B E) where
  abbrev pub perform : Operation B → S → Option E × S
  perform (writing b) s = store.write_block b s
  perform (deleting id) s = store.delete_block id s
  perform flushing s = store.flush s

  -- The operations in order, up to the first error.
  unfoldable pub attempt : List (Operation B) → S → Option E × S
  attempt [] s = (none, s)
  attempt (o ∷ os) s =
      let r = perform o s in let rest = attempt os r.1 in elim r.0 [ some _ ↦ r | none ↦ rest ]

  abbrev pub plan : List B → List Key → List (Operation B)
  plan bs ids = map writing bs ++ (map deleting ids ++ flushing ∷ [])

  attempt_last : (o : Operation B) (s : S) → attempt (o ∷ []) s ≡ perform o s
  unfolding attempt
  attempt_last o s = settled (perform o s)

  commit_deletes-attempt :
      (ids : List Key) (s : S)
      → commit_deletes store ids s ≡ attempt (map deleting ids ++ flushing ∷ []) s
  unfolding attempt
  commit_deletes-attempt [] s = sym (attempt_last flushing s)
  commit_deletes-attempt (id ∷ ids) s =
      ap
        (λ q. elim (store.delete_block id s).0 as (λ _. Option E × S) [
          | some _ ↦ store.delete_block id s
          | none ↦ q
        ])
        (commit_deletes-attempt ids (store.delete_block id s).1)

  pub commit_writes-attempt :
      (bs : List B) (ids : List Key) (s : S)
      → commit_writes store bs ids s ≡ attempt (plan bs ids) s
  unfolding attempt
  commit_writes-attempt [] ids s = commit_deletes-attempt ids s
  commit_writes-attempt (b ∷ bs) ids s =
      ap
        (λ q. elim (store.write_block b s).0 as (λ _. Option E × S) [
          | some _ ↦ store.write_block b s
          | none ↦ q
        ])
        (commit_writes-attempt bs ids (store.write_block b s).1)

  -- The operations up to a failing one are performed, and no further one.
  pub attempt_failed :
      (xs ys : List (Operation B)) (o : Operation B) (e : E) (s s1 s2 : S)
      → attempt xs s ≡ (none, s1)
      → perform o s1 ≡ (some e, s2)
      → attempt (xs ++ o ∷ ys) s ≡ (some e, s2)
  unfolding attempt
  attempt_failed [] ys o e s s1 s2 h k =
      let fails : perform o s ≡ (some e, s2) = ap (λ p. perform o p.1) h ∙ k in
      rw (attempt, fails) fails
  attempt_failed (x ∷ xs) ys o e s s1 s2 h k = elim (Option-cases (perform x s).0) [
    | inl well ↦
        let whole : attempt (x ∷ xs) s ≡ attempt xs (perform x s).1 = rw (attempt, well) refl in
        rw (attempt, well) (attempt_failed xs ys o e (perform x s).1 s1 s2 (sym whole ∙ h) k)
    | inr (f, fails) ↦
        let whole : (attempt (x ∷ xs) s).0 ≡ some f = rw (attempt, fails) fails in
        let clash : none ≡ some f = sym (ap (λ p. p.0) h) ∙ whole in absurd cc
  ]
