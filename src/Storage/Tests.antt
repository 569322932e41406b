-- ===== src/Storage/Tests.antt =====
-- Transactions over a store that is a list of blocks, and the theorems at them.
use grimlocker_public.Base.{
  ◌≡◌, refl, ℕ, true, false, List, [], ◌∷◌, none, some, ◌==◌, if◌then◌else◌,
}
use grimlocker_public.Gql.Opcodes.{codes}
use grimlocker_public.Storage.Transaction.{
  BlockStore, Transaction, store_failed, new_transaction, commit, Call, writes, deletes, commits,
  run,
}
use grimlocker_public.Storage.Transaction.Plan.{writing, deleting, flushing, attempt, plan}
use grimlocker_public.Storage.Transaction.Once.{
  before_commit, written, deleted, run_lem, commit_failed,
}

-- A store of numbered blocks that is full with the block 13; a deletion empties it.
abbrev list_store : BlockStore (List ℕ) ℕ ℕ
list_store = record {
  write_block = λ b s. if b == 13 then (some 1, s) else (none, b ∷ s);
  delete_block = λ id s. (none, []);
  flush = λ s. (none, s);
}

abbrev calls : List (Call ℕ)
calls = writes 1 ∷ deletes (codes "b") ∷ writes 2 ∷ commits ∷ writes 3 ∷ commits ∷ []

run_lem_example : (run list_store (new_transaction, 7 ∷ []) calls).1 ≡ (elim (before_commit calls) [
  | none ↦ 7 ∷ []
  | some ds ↦ (attempt list_store (plan list_store (written ds) (deleted ds)) (7 ∷ [])).1
])
run_lem_example = run_lem list_store calls (7 ∷ [])

abbrev staged : Transaction ℕ
staged = record { writes = 1 ∷ 13 ∷ 2 ∷ []; deletes = codes "b" ∷ []; is_done = false }

attempt_one : attempt list_store (writing 1 ∷ []) (7 ∷ []) ≡ (none, 1 ∷ 7 ∷ [])
unfolding attempt
attempt_one = refl

-- The block 1 has been written although the Commit fails.
commit_failed_example :
    commit list_store staged (7 ∷ [])
    ≡ (some (store_failed 1), record staged { is_done = true }, 1 ∷ 7 ∷ [])
commit_failed_example =
    commit_failed list_store staged (writing 1 ∷ [])
      (writing 2 ∷ deleting (codes "b") ∷ flushing ∷ []) (writing 13) 1 (7 ∷ []) (1 ∷ 7 ∷ [])
      (1 ∷ 7 ∷ []) refl refl attempt_one refl
