-- ===== src/Crypto/Entropy/Filling.antt =====
-- The loop of engine/crypto/entropy.go ends, and on a disk that works it fills the file.
use Prim.Native.Nat.{min}
use grimlocker_public.Base.{
  ◌≡◌, ◌≢◌, refl, ℕ, zero, suc, ◌+◌, ◌-◌, ◌≤◌, List, [], take, ltb, arith, Bool-cases, Option-cases,
  ◌⊎◌, inl, inr, le→ltb, ltb→lt,
}
use grimlocker_public.Base.Outcome.{Outcome, ok, err}
use grimlocker_public.Crypto.Entropy.{
  Disk, out_of_fuel, Progress, total_size, chunk_size, flush, fill,
  generate_entropy_file_with_progress,
}

drawn-cases : {A B : Type 0} (o : Outcome A B) → ((a : A) × (o ≡ err a)) ⊎ ((b : B) × (o ≡ ok b))
drawn-cases (err a) = inl (a, refl)
drawn-cases (ok b) = inr (b, refl)

module _ {W R : Type 0} (io : Disk W R) where
  flush_ends : (calls : List Progress) (w : W) (r : R) → (flush io calls w r).result ≢ out_of_fuel
  flush_ends calls w r = elim (Option-cases (io.sync w).0) [
    | inl done ↦ rw (flush, done) (λ e. absurd cc)
    | inr (why, e) ↦ rw (flush, e) (λ e. absurd cc)
  ]

  fill_ends :
      (fuel written : ℕ) (calls : List Progress) (w : W) (r : R)
      → total_size ≤ written + fuel
      → (fill io fuel written calls w r).result ≢ out_of_fuel
  unfolding fill
  fill_ends zero written calls w r h =
      rw (fill, le→ltb written total_size (omega arith)) (flush_ends calls w r)
  fill_ends (suc fuel) written calls w r h = elim (Bool-cases (ltb written total_size)) [
    | inr over ↦ rw (fill, over) (flush_ends calls w r)
    | inl more ↦
        let drawn = io.read_random chunk_size r in
        let to_write = min (total_size - written) chunk_size in
        elim (drawn-cases drawn.0) [
          | inl (why, e) ↦ rw (fill, more, e) (λ clash. absurd cc)
          | inr (buf, e) ↦
              let wrote = io.write (take to_write buf) w in
              elim (Option-cases wrote.0) [
                | inr (why, f) ↦ rw (fill, more, e, f) (λ clash. absurd cc)
                | inl done ↦
                    let left = ltb→lt written total_size more in
                    rw (fill, more, e, done)
                      (fill_ends fuel (written + to_write) _ wrote.1 drawn.1 (omega arith))
              ]
        ]
  ]

  -- Generating an entropy file ends, whatever the disk and the random source do.
  pub generate_entropy_file_ends :
      (path : List ℕ) (w : W) (r : R)
      → (generate_entropy_file_with_progress io path w r).result ≢ out_of_fuel
  unfolding generate_entropy_file_with_progress
  generate_entropy_file_ends path w r = elim (Option-cases (io.open_file path w).0) [
    | inl done ↦
        rw (generate_entropy_file_with_progress, done)
          (fill_ends total_size 0 [] (io.open_file path w).1 r (omega arith))
    | inr (why, e) ↦ rw (generate_entropy_file_with_progress, e) (λ clash. absurd cc)
  ]
