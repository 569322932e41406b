-- ===== src/Storage/Transaction.antt =====
-- InMemoryWriteTransaction of engine/storage/blockstore_v2.go. A block store is an interface, so it
-- is a parameter: what its operations return, `none` for nil, and make of its state. `B` are blocks.
pub mod Plan
pub mod Once
use grimlocker_public.Base.{
  Bool, true, false, List, [], ◌∷◌, ◌++◌, ℕ, Option, none, some, if◌then◌else◌,
}
use grimlocker_public.Base.Dict.{Key}

-- What a transaction uses of the interface BlockStore.
pub record BlockStore (S B E : Type 0) : Type 0 where
  pub write_block : B → S → Option E × S
  pub delete_block : Key → S → Option E × S
  pub flush : S → Option E × S

pub record Transaction (B : Type 0) : Type 0 where
  pub writes : List B
  pub deletes : List Key
  pub is_done : Bool

-- ErrTransactionClosed, or an error of the store.
pub data TransactionError (E : Type 0) : Type 0 where
  transaction_closed : TransactionError E
  store_failed : E → TransactionError E

module _ {B : Type 0} where
  -- NewInMemoryWriteTransaction
  unfoldable pub new_transaction : Transaction B
  new_transaction = record { writes = []; deletes = []; is_done = false }

  unfoldable pub rollback : Transaction B → Transaction B
  rollback t = record { writes = []; deletes = []; is_done = true }

module _ {B E : Type 0} where
  unfoldable pub write_block : B → Transaction B → Option (TransactionError E) × Transaction B
  write_block b t =
      if t.is_done
      then (some transaction_closed, t)
      else (none, record t { writes = t.writes ++ b ∷ [] })

  unfoldable pub delete_block : Key → Transaction B → Option (TransactionError E) × Transaction B
  delete_block id t =
      if t.is_done
      then (some transaction_closed, t)
      else (none, record t { deletes = t.deletes ++ id ∷ [] })

module _ {S B E : Type 0} (store : BlockStore S B E) where
  -- The loops of Commit, and the Flush that ends it.
  abbrev pub commit_deletes : List Key → S → Option E × S
  commit_deletes [] s = store.flush s
  commit_deletes (id ∷ ids) s =
      let r = store.delete_block id s in
      let rest = commit_deletes ids r.1 in elim r.0 [ some _ ↦ r | none ↦ rest ]

  abbrev pub commit_writes : List B → List Key → S → Option E × S
  commit_writes [] ids s = commit_deletes ids s
  commit_writes (b ∷ bs) ids s =
      let r = store.write_block b s in
      let rest = commit_writes bs ids r.1 in elim r.0 [ some _ ↦ r | none ↦ rest ]

  -- The error, the transaction and the store after Commit.
  unfoldable pub commit : Transaction B → S → Option (TransactionError E) × Transaction B × S
  commit t s =
      if t.is_done
      then (some transaction_closed, t, s)
      else let r = commit_writes t.writes t.deletes s in
        (
          elim r.0 [ none ↦ none | some e ↦ some (store_failed e) ],
          record t { is_done = true },
          r.1,
        )

-- The calls on a transaction.
pub data Call (B : Type 0) : Type 0 where
  writes : B → Call B
  deletes : Key → Call B
  commits : Call B
  rolls_back : Call B

module _ {S B E : Type 0} (store : BlockStore S B E) where
  unfoldable pub step : Transaction B × S → Call B → Transaction B × S
  step (t, s) (writes b) = ((write_block {E = E} b t).1, s)
  step (t, s) (deletes id) = ((delete_block {E = E} id t).1, s)
  step (t, s) commits = let r = commit store t s in (r.1, r.2)
  step (t, s) rolls_back = (rollback t, s)

  unfoldable pub run : Transaction B × S → List (Call B) → Transaction B × S
  run q [] = q
  run q (c ∷ cs) = run (step q c) cs
