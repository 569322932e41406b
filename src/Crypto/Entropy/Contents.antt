-- ===== src/Crypto/Entropy/Contents.antt =====
-- What engine/crypto/entropy.go writes to a disk that works.
use Prim.Native.Nat.{min}
use mathlib.Core.List.{append_assoc, append-nil}
use grimlocker_public.Base.{
  ◌≡◌, refl, ap, ap₂, ◌∙◌, ℕ, zero, suc, ◌+◌, ◌-◌, ◌*◌, ◌≤◌, List, [], ◌∷◌, ◌++◌, none, length,
  take, arith, length-append, lt→ltb, le→ltb, take_all,
}
use grimlocker_public.Base.Outcome.{Outcome, ok, err}
use grimlocker_public.Crypto.Entropy.{
  Disk, generated, Progress, progress_at, total_size, chunk_size, fill, ended,
  generate_entropy_file_with_progress,
}

abbrev pub Source : Type 0 → Type 0
Source R = ℕ → R → Outcome (List ℕ) (List ℕ) × R

-- The reports of so many chunks.
abbrev pub marks : ℕ → ℕ → List Progress
marks written zero = []
marks written (suc k) = progress_at (written + chunk_size) ∷ marks (written + chunk_size) k

abbrev pub bytes_of : Outcome (List ℕ) (List ℕ) → List ℕ
bytes_of (err why) = []
bytes_of (ok bs) = bs

module _ {R : Type 0} where
  -- It gives as many bytes as it is asked for.
  abbrev pub Gives : Source R → Type 0
  Gives read = (n : ℕ) (r : R) → (bs : List ℕ) × ((read n r).0 ≡ ok bs) × (length bs ≡ n)

  -- A file as its bytes, on a disk where nothing fails.
  abbrev pub file_disk : Source R → Disk (List ℕ) R
  file_disk read = record {
    open_file = λ path file. (none, []);
    write = λ bs file. (none, file ++ bs);
    sync = λ file. (none, file);
    read_random = read;
  }

  -- What so many readings of a chunk give, and the random source after them.
  abbrev pub draws : Source R → ℕ → R → List ℕ
  draws read zero r = []
  draws read (suc k) r = bytes_of (read chunk_size r).0 ++ draws read k (read chunk_size r).1

  abbrev pub source_after : Source R → ℕ → R → R
  source_after read zero r = r
  source_after read (suc k) r = source_after read k (read chunk_size r).1

  fill_lem :
      (read : Source R) (k fuel written : ℕ) (calls : List Progress) (file : List ℕ) (r : R)
      → Gives read
      → written + k * chunk_size ≡ total_size
      → k ≤ fuel
      → fill (file_disk read) fuel written calls file r
        ≡ ended generated
            (calls ++ marks written k)
            (file ++ draws read k r)
            (source_after read k r)
  unfolding fill
  fill_lem read zero zero written calls file r g e h =
      rw (fill, le→ltb written total_size (omega arith), append-nil calls, append-nil file) refl
  fill_lem read zero (suc fuel) written calls file r g e h =
      rw (fill, le→ltb written total_size (omega arith), append-nil calls, append-nil file) refl
  fill_lem read (suc k) zero written calls file r g e h = absurd (omega arith)
  fill_lem read (suc k) (suc fuel) written calls file r g e h =
      let (bs, reads, size) = g chunk_size r in
      let more = lt→ltb written total_size (omega arith) in
      let n : min (total_size - written) chunk_size ≡ chunk_size = omega arith in
      let whole : take chunk_size bs ≡ bs = take_all chunk_size bs (omega arith) in
      let next = progress_at (written + chunk_size) in
      let r' = (read chunk_size r).1 in
      rw (fill, more, reads, n, whole)
        (fill_lem read k fuel (written + chunk_size) (calls ++ next ∷ []) (file ++ bs) r' g
            (omega arith) (omega arith)
          ∙ ap₂ (λ cs f. ended generated cs f (source_after read k r'))
              (append_assoc calls (next ∷ []) (marks (written + chunk_size) k))
              (append_assoc file bs (draws read k r')))

  length-draws :
      (read : Source R) (k : ℕ) (r : R) → Gives read → length (draws read k r) ≡ k * chunk_size
  length-draws read zero r g = refl
  length-draws read (suc k) r g =
      let (bs, reads, size) = g chunk_size r in
      let first : length (bytes_of (read chunk_size r).0) ≡ chunk_size =
        ap (λ o. length (bytes_of o)) reads ∙ size in
      length-append (bytes_of (read chunk_size r).0) (draws read k (read chunk_size r).1)
      ∙ omega (arith, length-draws read k (read chunk_size r).1 g)

  -- On a disk where nothing fails and with a random source that gives the bytes it is asked for, the
  -- file that is generated has 2097152 bytes whatever it had before, those of 32 readings in their
  -- order, and progress is reported after each of them.
  pub generate_entropy_file_lem :
      (read : Source R) (path file : List ℕ) (r : R)
      → Gives read
      → let after = generate_entropy_file_with_progress (file_disk read) path file r in
        (after.result ≡ generated)
        × (after.disk ≡ draws read 32 r)
        × (length after.disk ≡ total_size)
        × (after.calls ≡ marks 0 32)
  unfolding generate_entropy_file_with_progress
  generate_entropy_file_lem read path file r g =
      let done = fill_lem read 32 total_size 0 [] [] r g refl (omega arith) in
      (
        ap (λ a. a.result) done,
        ap (λ a. a.disk) done,
        ap (λ a. length a.disk) done ∙ length-draws read 32 r g,
        ap (λ a. a.calls) done,
      )
