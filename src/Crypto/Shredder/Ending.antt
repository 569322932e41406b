-- ===== src/Crypto/Shredder/Ending.antt =====
-- Shred of engine/crypto/shredder.go returns.
use Prim.Native.Nat.{min}
use grimlocker_public.Base.{◌≢◌, ℕ, zero, suc, ◌-◌, ◌≤◌, arith, Bool-cases, Option-cases, inl, inr}
use grimlocker_public.Crypto.Shredder.{
  Devices, ShredResult, shredded, seek_failed, rand_failed, write_failed, out_of_fuel, shred_pass,
  shred_from, shred, shred_buf_size, shred_passes,
}

module _ {W R : Type 0} where
  goes_on :
      (q rest : ShredResult × W × R)
      → q.0 ≢ out_of_fuel
      → rest.0 ≢ out_of_fuel
      → (elim q.0 as (λ _. ShredResult × W × R) [ shredded ↦ rest | _ ↦ q ]).0 ≢ out_of_fuel
  goes_on (shredded, w, r) rest h k = k
  goes_on (seek_failed n, w, r) rest h k = h
  goes_on (rand_failed n, w, r) rest h k = h
  goes_on (write_failed n, w, r) rest h k = h
  goes_on (out_of_fuel, w, r) rest h k = h

module _ {W R : Type 0} (io : Devices W R) where
  shred_pass_ends :
      (fuel pass n : ℕ) (w : W) (r : R) → n ≤ fuel → (shred_pass io fuel pass n w r).0 ≢ out_of_fuel
  unfolding shred_pass
  shred_pass_ends fuel pass zero w r h = λ e. absurd cc
  shred_pass_ends zero pass (suc n) w r h = absurd (omega arith)
  shred_pass_ends (suc fuel) pass (suc n) w r h =
      let chunk = min shred_buf_size (suc n) in
      let d = io.read_random chunk r in
      elim (Option-cases d.0) [
        | inl fails ↦ rw (shred_pass, fails) (λ e. absurd cc)
        | inr (bs, reads) ↦ elim (Bool-cases (io.write bs w).0) [
          | inl writes ↦
              rw (shred_pass, reads, writes)
                (shred_pass_ends fuel pass (suc n - chunk) (io.write bs w).1 d.1 (omega arith))
          | inr refused ↦ rw (shred_pass, reads, refused) (λ e. absurd cc)
        ]
      ]

  pub shred_from_ends :
      (left size : ℕ) (w : W) (r : R) → (shred_from io left size w r).0 ≢ out_of_fuel
  unfolding shred_from
  shred_from_ends zero size w r = λ e. absurd cc
  shred_from_ends (suc left) size w r =
      let pass = shred_passes - suc left in
      let w1 = (io.seek_start w).1 in
      let q = shred_pass io size pass size w1 r in
      elim (Bool-cases (io.seek_start w).0) [
        | inl sought ↦
            rw (shred_from, sought)
              (goes_on q (shred_from io left size q.1 q.2)
                (shred_pass_ends size pass size w1 r (omega arith))
                (shred_from_ends left size q.1 q.2))
        | inr refused ↦ rw (shred_from, refused) (λ e. absurd cc)
      ]

  -- Shred ends, whatever the file and the random source do: its fuel is never used up.
  pub shred_ends : (size : ℕ) (w : W) (r : R) → (shred io size w r).0 ≢ out_of_fuel
  unfolding shred
  shred_ends size w r = shred_from_ends shred_passes size w r
