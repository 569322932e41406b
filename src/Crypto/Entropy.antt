-- ===== src/Crypto/Entropy.antt =====
-- engine/crypto/entropy.go. The file and rand.Read are not in the repository: they are parameters, each
-- with a state, and an error is its text. The calls of progressFn are a list, with the fraction that
-- is done as its two numbers. The loop runs on fuel, one round for each byte.
pub mod Filling
pub mod Contents
use Prim.Native.Nat.{min}
use grimlocker_public.Base.{
  ℕ, zero, suc, true, false, ◌+◌, ◌-◌, List, [], ◌∷◌, ◌++◌, Option, none, some, take, ltb,
  if◌then◌else◌,
}
use grimlocker_public.Base.Decimal.{decimal}
use grimlocker_public.Base.Outcome.{Outcome, ok, err}
use grimlocker_public.Gql.Opcodes.{codes}

abbrev pub total_size : ℕ
total_size = 2097152

abbrev pub chunk_size : ℕ
chunk_size = 65536

-- Opening, writing and flushing, with the error if there is one, and rand.Read of so many bytes.
pub record Disk (W R : Type 0) : Type 0 where
  pub open_file : List ℕ → W → Option (List ℕ) × W
  pub write : List ℕ → W → Option (List ℕ) × W
  pub sync : W → Option (List ℕ) × W
  pub read_random : ℕ → R → Outcome (List ℕ) (List ℕ) × R

pub data Generated : Type 0 where
  generated : Generated
  failed : List ℕ → Generated
  out_of_fuel : Generated

-- A call of progressFn
pub record Progress : Type 0 where
  pub done : ℕ
  pub all : ℕ
  pub message : List ℕ

abbrev pub progress_at : ℕ → Progress
progress_at written = record {
  done = written;
  all = total_size;
  message =
      codes "Generated "
      ++ (decimal written ++ (codes " / " ++ (decimal total_size ++ codes " bytes")));
}

-- The states afterwards, and the calls of progressFn.
pub record After (W R : Type 0) : Type 0 where
  pub result : Generated
  pub disk : W
  pub random : R
  pub calls : List Progress

abbrev pub ended : {W R : Type 0} → Generated → List Progress → W → R → After W R
ended result calls w r = record { result = result; disk = w; random = r; calls = calls }

module _ {W R : Type 0} (io : Disk W R) where
  -- The end of the file after the loop.
  abbrev pub flush : List Progress → W → R → After W R
  flush calls w r = elim (io.sync w).0 [
    | none ↦ ended generated calls (io.sync w).1 r
    | some why ↦ ended (failed (codes "sync entropy file: " ++ why)) calls (io.sync w).1 r
  ]

  unfoldable pub fill : ℕ → ℕ → List Progress → W → R → After W R
  fill zero written calls w r =
      if ltb written total_size then ended out_of_fuel calls w r else flush calls w r
  fill (suc fuel) written calls w r =
      let drawn = io.read_random chunk_size r in
      let to_write = min (total_size - written) chunk_size in
      elim (ltb written total_size) [
        | false ↦ flush calls w r
        | true ↦ elim drawn.0 [
          | err why ↦ ended (failed (codes "read entropy: " ++ why)) calls w drawn.1
          | ok buf ↦
              let wrote = io.write (take to_write buf) w in
              let rest =
                fill fuel (written + to_write) (calls ++ progress_at (written + to_write) ∷ [])
                  wrote.1 drawn.1 in
              elim wrote.0 [
                | some why ↦ ended (failed (codes "write entropy: " ++ why)) calls wrote.1 drawn.1
                | none ↦ rest
              ]
        ]
      ]

  unfoldable pub generate_entropy_file_with_progress : List ℕ → W → R → After W R
  generate_entropy_file_with_progress path w r =
      let opened = io.open_file path w in
      let filled = fill total_size 0 [] opened.1 r in
      elim opened.0 [
        | some why ↦ ended (failed (codes "open entropy file: " ++ why)) [] opened.1 r
        | none ↦ filled
      ]
