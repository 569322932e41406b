-- ===== src/Crypto/Shredder.antt =====
-- engine/crypto/shredder.go. The io.WriteSeeker and rand.Read are not in the repository: they are
-- parameters, each with a state, that tell whether they fail. The inner loop runs on fuel, of which
-- `shred` gives one for each byte; a negative size, which writes nothing, is the size 0.
pub mod Ending
pub mod Forgetting
use Prim.Native.Nat.{min}
use grimlocker_public.Base.{
  ℕ, zero, suc, ◌-◌, Bool, true, false, List, Option, none, some, if◌then◌else◌,
}

abbrev pub shred_passes : ℕ
shred_passes = 7

abbrev pub shred_buf_size : ℕ
shred_buf_size = 65536

-- What Shred uses of io.WriteSeeker, and of rand.Read.
pub record Devices (W R : Type 0) : Type 0 where
  pub seek_start : W → Bool × W
  pub write : List ℕ → W → Bool × W
  pub read_random : ℕ → R → Option (List ℕ) × R

-- Each error with the number of its pass.
pub data ShredResult : Type 0 where
  shredded : ShredResult
  seek_failed : ℕ → ShredResult
  rand_failed : ℕ → ShredResult
  write_failed : ℕ → ShredResult
  out_of_fuel : ShredResult

module _ {W R : Type 0} (io : Devices W R) where
  -- The inner loop of a pass.
  unfoldable pub shred_pass : ℕ → ℕ → ℕ → W → R → ShredResult × W × R
  shred_pass fuel pass zero w r = (shredded, w, r)
  shred_pass zero pass (suc n) w r = (out_of_fuel, w, r)
  shred_pass (suc fuel) pass (suc n) w r =
      let chunk = min shred_buf_size (suc n) in
      let d = io.read_random chunk r in
      elim d.0 [
        | none ↦ (rand_failed pass, w, d.1)
        | some bs ↦
            let wrote = io.write bs w in
            let rest = shred_pass fuel pass (suc n - chunk) wrote.1 d.1 in
            if wrote.0 then rest else (write_failed pass, wrote.1, d.1)
      ]

  -- The loop over the passes, by how many are left.
  unfoldable pub shred_from : ℕ → ℕ → W → R → ShredResult × W × R
  shred_from zero size w r = (shredded, w, r)
  shred_from (suc left) size w r =
      let pass = shred_passes - suc left in
      let sought = io.seek_start w in
      let done = shred_pass size pass size sought.1 r in
      let rest = shred_from left size done.1 done.2 in
      if sought.0
      then elim done.0 [ shredded ↦ rest | _ ↦ done ]
      else (seek_failed pass, sought.1, r)

  unfoldable pub shred : ℕ → W → R → ShredResult × W × R
  shred size w r = shred_from shred_passes size w r
