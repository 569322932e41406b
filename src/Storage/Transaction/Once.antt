-- ===== src/Storage/Transaction/Once.antt =====
-- What any calls on one transaction of engine/storage/blockstore_v2.go do to its store.
use mathlib.Core.List.{append_assoc, append-nil}
use grimlocker_public.Base.{
  ◌≡◌, refl, sym, ap, ap₂, ◌∙◌, true, false, List, [], ◌∷◌, ◌++◌, Option, none, some, Option-cases,
  inl, inr,
}
use grimlocker_public.Base.Dict.{Key}
use grimlocker_public.Storage.Transaction.{
  BlockStore, Transaction, store_failed, new_transaction, write_block, delete_block, rollback,
  commit, commit_writes, Call, writes, deletes, commits, rolls_back, step, run,
}
use grimlocker_public.Storage.Transaction.Plan.{
  Operation, perform, attempt, plan, commit_writes-attempt, attempt_failed,
}

module _ {B : Type 0} where
  -- The calls before the first Commit, unless a Rollback comes before it.
  abbrev pub before_commit : List (Call B) → Option (List (Call B))
  before_commit [] = none
  before_commit (commits ∷ cs) = some []
  before_commit (rolls_back ∷ cs) = none
  before_commit (writes b ∷ cs) = elim (before_commit cs) [
    | none ↦ none
    | some ds ↦ some (writes b ∷ ds)
  ]
  before_commit (deletes id ∷ cs) = elim (before_commit cs) [
    | none ↦ none
    | some ds ↦ some (deletes id ∷ ds)
  ]

  abbrev pub written : List (Call B) → List B
  written [] = []
  written (writes b ∷ cs) = b ∷ written cs
  written (_ ∷ cs) = written cs

  abbrev pub deleted : List (Call B) → List Key
  deleted [] = []
  deleted (deletes id ∷ cs) = id ∷ deleted cs
  deleted (_ ∷ cs) = deleted cs

module _ {S B E : Type 0} (store : BlockStore S B E) where
  -- A closed transaction changes nothing.
  run_closed :
      (cs : List (Call B)) (ws : List B) (ids : List Key) (s : S)
      → (run store (record { writes = ws; deletes = ids; is_done = true }, s) cs).1 ≡ s
  unfolding run step write_block delete_block rollback commit
  run_closed [] ws ids s = refl
  run_closed (writes b ∷ cs) ws ids s = run_closed cs ws ids s
  run_closed (deletes id ∷ cs) ws ids s = run_closed cs ws ids s
  run_closed (commits ∷ cs) ws ids s = run_closed cs ws ids s
  run_closed (rolls_back ∷ cs) ws ids s = run_closed cs [] [] s

  -- The store when the transaction has staged `ws` and `ids` before the calls.
  abbrev after_calls : List B → List Key → List (Call B) → S → S
  after_calls ws ids cs s = elim (before_commit cs) [
    | none ↦ s
    | some ds ↦ (attempt store (plan store (ws ++ written ds) (ids ++ deleted ds)) s).1
  ]

  after_calls-writes :
      (ws : List B) (ids : List Key) (b : B) (cs : List (Call B)) (s : S)
      → after_calls (ws ++ b ∷ []) ids cs s ≡ after_calls ws ids (writes b ∷ cs) s
  after_calls-writes ws ids b cs s = elim (Option-cases (before_commit cs)) [
    | inl never ↦ rw (never, after_calls) refl
    | inr (ds, found) ↦
        rw (found, after_calls)
          (ap (λ xs. (attempt store (plan store xs (ids ++ deleted ds)) s).1)
            (append_assoc ws (b ∷ []) (written ds)))
  ]

  after_calls-deletes :
      (ws : List B) (ids : List Key) (id : Key) (cs : List (Call B)) (s : S)
      → after_calls ws (ids ++ id ∷ []) cs s ≡ after_calls ws ids (deletes id ∷ cs) s
  after_calls-deletes ws ids id cs s = elim (Option-cases (before_commit cs)) [
    | inl never ↦ rw (never, after_calls) refl
    | inr (ds, found) ↦
        rw (found, after_calls)
          (ap (λ xs. (attempt store (plan store (ws ++ written ds) xs) s).1)
            (append_assoc ids (id ∷ []) (deleted ds)))
  ]

  run_open :
      (cs : List (Call B)) (ws : List B) (ids : List Key) (s : S)
      → (run store (record { writes = ws; deletes = ids; is_done = false }, s) cs).1
        ≡ after_calls ws ids cs s
  unfolding run step write_block delete_block rollback commit
  run_open [] ws ids s = refl
  run_open (writes b ∷ cs) ws ids s =
      run_open cs (ws ++ b ∷ []) ids s ∙ after_calls-writes ws ids b cs s
  run_open (deletes id ∷ cs) ws ids s =
      run_open cs ws (ids ++ id ∷ []) s ∙ after_calls-deletes ws ids id cs s
  run_open (commits ∷ cs) ws ids s =
      run_closed cs ws ids (commit_writes store ws ids s).1
      ∙ ap (λ r. r.1) (commit_writes-attempt store ws ids s)
      ∙ ap₂ (λ xs ys. (attempt store (plan store xs ys) s).1) (sym (append-nil ws))
          (sym (append-nil ids))
  run_open (rolls_back ∷ cs) ws ids s = run_closed cs [] [] s

  -- Any calls on a new transaction leave the store as it is, unless a Commit comes before any
  -- Rollback: then the store has, up to the first error, all writes staged before the first
  -- Commit in their order, then all deletions staged before it, whenever they were staged, and
  -- the flush; later calls add nothing.
  pub run_lem :
      (cs : List (Call B)) (s : S)
      → (run store (new_transaction, s) cs).1 ≡ (elim (before_commit cs) [
        | none ↦ s
        | some ds ↦ (attempt store (plan store (written ds) (deleted ds)) s).1
      ])
  unfolding new_transaction
  run_lem cs s = run_open cs [] [] s

  -- A Commit of an open transaction whose operation `o` is the first to fail returns its error,
  -- closes the transaction, and leaves the store with all the operations before it performed.
  pub commit_failed :
      (t : Transaction B) (xs ys : List (Operation B)) (o : Operation B) (e : E) (s s1 s2 : S)
      → t.is_done ≡ false
      → plan store t.writes t.deletes ≡ xs ++ o ∷ ys
      → attempt store xs s ≡ (none, s1)
      → perform store o s1 ≡ (some e, s2)
      → commit store t s ≡ (some (store_failed e), record t { is_done = true }, s2)
  unfolding commit
  commit_failed t xs ys o e s s1 s2 opened split h k =
      let stops : commit_writes store t.writes t.deletes s ≡ (some e, s2) =
        commit_writes-attempt store t.writes t.deletes s
        ∙ ap (λ os. attempt store os s) split
        ∙ attempt_failed store xs ys o e s s1 s2 h k in
      rw (commit, opened, stops) refl
