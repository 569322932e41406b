-- ===== src/Crypto/Shredder/Forgetting.antt =====
-- On a file, Shred of engine/crypto/shredder.go leaves nothing of the old content.
use Prim.Native.Nat.{min}
use grimlocker_public.Base.{
  ◌≡◌, refl, sym, ap, ap₂, ◌∙◌, ℕ, zero, suc, ◌-◌, ◌≤◌, true, List, [], ◌∷◌, ◌++◌, Option, none,
  some, arith, length, length-append, drop, length-drop,
}
use mathlib.Core.List.{append_assoc, append-nil}
use grimlocker_public.Crypto.Shredder.{
  Devices, ShredResult, shredded, shred_pass, shred_from, shred, shred_buf_size, shred_passes,
}

-- A file as the bytes before and after its position: Write overwrites and extends.
pub record File : Type 0 where
  pub before : List ℕ
  pub after : List ℕ

abbrev pub file_devices : {R : Type 0} → (ℕ → R → Option (List ℕ) × R) → Devices File R
file_devices read = record {
  seek_start = λ f. (true, record { before = []; after = f.before ++ f.after });
  write = λ bs f. (true, record { before = f.before ++ bs; after = drop (length bs) f.after });
  read_random = read;
}

length_zero : (xs : List ℕ) → length xs ≡ 0 → xs ≡ []
length_zero [] e = refl
length_zero (x ∷ xs) e = absurd (ground arith)

module _ {R : Type 0} (read : ℕ → R → Option (List ℕ) × R) where
  -- The source gives as many bytes as it is asked for.
  abbrev pub Gives : Type 0
  Gives = (n : ℕ) (r : R) → (bs : List ℕ) × (read n r).0 ≡ some bs × length bs ≡ n

  -- The bytes that a pass draws.
  unfoldable drawn : ℕ → ℕ → R → List ℕ × R
  drawn fuel zero r = ([], r)
  drawn zero (suc n) r = ([], r)
  drawn (suc fuel) (suc n) r =
      let chunk = min shred_buf_size (suc n) in
      let d = read chunk r in
      let rest = drawn fuel (suc n - chunk) d.1 in
      elim d.0 [ none ↦ ([], d.1) | some bs ↦ (bs ++ rest.0, rest.1) ]

  shred_pass-file :
      (fuel pass n : ℕ) (f : File) (r : R)
      → Gives
      → n ≤ fuel
      → length f.after ≡ n
      → shred_pass (file_devices read) fuel pass n f r ≡ (
        shredded,
        record { before = f.before ++ (drawn fuel n r).0; after = [] },
        (drawn fuel n r).1,
      )
  unfolding shred_pass drawn
  shred_pass-file fuel pass zero f r g h e =
      ap₂ (λ xs ys. (shredded, record { before = xs; after = ys }, r)) (sym (append-nil f.before))
        (length_zero f.after e)
  shred_pass-file zero pass (suc n) f r g h e = absurd (omega arith)
  shred_pass-file (suc fuel) pass (suc n) f r g h e =
      let chunk = min shred_buf_size (suc n) in
      let (bs, reads, len) = g chunk r in
      let f' : File = record { before = f.before ++ bs; after = drop (length bs) f.after } in
      rw (shred_pass, drawn, reads)
        (shred_pass-file fuel pass (suc n - chunk) f' (read chunk r).1 g (omega arith)
            (length-drop (length bs) f.after ∙ omega (arith, len, e))
          ∙ ap
              (λ xs. (
                shredded,
                record { before = xs; after = [] },
                (drawn fuel (suc n - chunk) (read chunk r).1).1,
              ))
              (append_assoc f.before bs (drawn fuel (suc n - chunk) (read chunk r).1).0))

  length-drawn : (fuel n : ℕ) (r : R) → Gives → n ≤ fuel → length (drawn fuel n r).0 ≡ n
  unfolding drawn
  length-drawn fuel zero r g h = refl
  length-drawn zero (suc n) r g h = absurd (omega arith)
  length-drawn (suc fuel) (suc n) r g h =
      let chunk = min shred_buf_size (suc n) in
      let (bs, reads, len) = g chunk r in
      let rest = drawn fuel (suc n - chunk) (read chunk r).1 in
      rw (drawn, reads)
        (omega (
          arith,
          length-append bs rest.0,
          len,
          length-drawn fuel (suc n - chunk) (read chunk r).1 g (omega arith),
        ))

  -- The file that a pass over `n` bytes leaves.
  abbrev overwritten : ℕ → R → File
  overwritten n r = record { before = (drawn n n r).0; after = [] }

  shred_from-suc :
      (left n : ℕ) (f : File) (r : R)
      → Gives
      → length (f.before ++ f.after) ≡ n
      → shred_from (file_devices read) (suc left) n f r
        ≡ shred_from (file_devices read) left n (overwritten n r) (drawn n n r).1
  unfolding shred_from
  shred_from-suc left n f r g e =
      let start : File = record { before = []; after = f.before ++ f.after } in
      ap
        (λ q. elim q.0 as (λ _. ShredResult × File × R) [
          | shredded ↦ shred_from (file_devices read) left n q.1 q.2
          | _ ↦ q
        ])
        (shred_pass-file n (shred_passes - suc left) n start r g (omega arith) e)

  shred_from-shredded :
      (left n : ℕ) (f : File) (r : R)
      → Gives
      → length (f.before ++ f.after) ≡ n
      → let q = shred_from (file_devices read) left n f r in
        q.0 ≡ shredded × length (q.1.before ++ q.1.after) ≡ n
  unfolding shred_from
  shred_from-shredded zero n f r g e = (refl, e)
  shred_from-shredded (suc left) n f r g e =
      let drawn_size =
        ap length (append-nil (drawn n n r).0) ∙ length-drawn n n r g (omega arith) in
      let ih = shred_from-shredded left n (overwritten n r) (drawn n n r).1 g drawn_size in
      rw (shred_from-suc left n f r g e) ih

  -- On two files of the same size and a random source that gives what it is asked for, Shred
  -- succeeds, keeps the size, and leaves the same bytes in both: none depends on the old content.
  pub shred_forgets :
      (n : ℕ) (f f' : File) (r : R)
      → Gives
      → length (f.before ++ f.after) ≡ n
      → length (f'.before ++ f'.after) ≡ n
      → let q = shred (file_devices read) n f r in
        (q.0 ≡ shredded)
        × (length (q.1.before ++ q.1.after) ≡ n)
        × (shred (file_devices read) n f' r ≡ q)
  unfolding shred
  shred_forgets n f f' r g e e' =
      let (well, size) = shred_from-shredded shred_passes n f r g e in
      (well, size, shred_from-suc 6 n f' r g e' ∙ sym (shred_from-suc 6 n f r g e))
