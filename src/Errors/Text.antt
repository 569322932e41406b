-- ===== src/Errors/Text.antt =====
-- The texts of errors: Error and Unwrap of engine/errors/types.go, ConsoleFormat of
-- engine/errors/logging.go and the frames of engine/errors/stacktrace.go. A walk of a map is the list of
-- its entries in some order.
use grimlocker_public.Base.{ℕ, ◌+◌, List, [], ◌∷◌, ◌++◌}
use grimlocker_public.Base.Int.{ℤ}
use grimlocker_public.Base.Decimal.{decimal, decimal_ℤ}
use grimlocker_public.Base.Dict.{Dict}
use grimlocker_public.Gql.Opcodes.{codes}
use grimlocker_public.Errors.{GrimlockError, GoError, no_error, plain_error, grimlock_error}
use grimlocker_public.Errors.Remediation.{remediation}

pub record StackFrame : Type 0 where
  pub file : List ℕ
  pub line : ℤ
  pub function : List ℕ

abbrev pub max_stack_frames : ℕ
max_stack_frames = 20

-- CaptureStacktrace, with runtime.Callers, of the frames to skip and the most to give, and the loop
-- over runtime.CallersFrames, as parameters over program counters.
unfoldable pub capture_stacktrace :
    {C : Type 0} → (ℕ → ℕ → List C) → (List C → List StackFrame) → ℕ → List StackFrame
capture_stacktrace callers frames_of skip = elim (callers (skip + 2) max_stack_frames) [
  | [] ↦ []
  | c ∷ cs ↦ frames_of (c ∷ cs)
]

-- The method String
unfoldable pub frame_string : StackFrame → List ℕ
frame_string f = f.file ++ (codes ":" ++ (decimal_ℤ f.line ++ (codes " in " ++ f.function)))

abbrev pub headline : {S : Type 0} → GrimlockError S → List ℕ
headline e = codes "[" ++ (decimal e.code ++ (codes "] " ++ e.message))

-- A line of the console, unless it has nothing to tell.
abbrev pub console_line : List ℕ → List ℕ → List ℕ
console_line label [] = []
console_line label (c ∷ cs) = 10 ∷ (label ++ (c ∷ cs))

abbrev pub detail_lines : Dict (List ℕ) → List ℕ
detail_lines [] = []
detail_lines ((k, v) ∷ ds) =
    10 ∷ (codes "        " ++ (k ++ (codes ": " ++ (v ++ detail_lines ds))))

module _ {P S : Type 0} where
  unfoldable pub unwrap : GrimlockError S → GoError P S → GoError P S
  unwrap e cause = cause

  -- The method Error; `print` gives the text of an error of another package.
  unfoldable pub error_text : (P → List ℕ) → GoError P S → List ℕ
  error_text print no_error = []
  error_text print (plain_error p) = print p
  error_text print (grimlock_error e no_error) = headline e
  error_text print (grimlock_error e (plain_error p)) = headline e ++ (codes ": " ++ print p)
  error_text print (grimlock_error e (grimlock_error e' cause)) =
      headline e ++ (codes ": " ++ error_text print (grimlock_error e' cause))

  abbrev pub cause_line : (P → List ℕ) → GoError P S → List ℕ
  cause_line print no_error = []
  cause_line print (plain_error p) = 10 ∷ (codes "        Cause:       " ++ print p)
  cause_line print (grimlock_error e cause) =
      10 ∷ (codes "        Cause:       " ++ error_text print (grimlock_error e cause))

  unfoldable pub console_format :
      (P → List ℕ) → (Dict (List ℕ) → Dict (List ℕ)) → GrimlockError S → GoError P S → List ℕ
  console_format print walk e cause =
      codes "[Code "
      ++ (decimal e.code
          ++ (codes "] "
              ++ (e.message
                  ++ (console_line (codes "        Operation:   ") e.ctx.operation
                      ++ (console_line (codes "        BlockID:     ") e.ctx.block_id
                          ++ (cause_line print cause
                              ++ (detail_lines (walk e.ctx.details)
                                  ++ 10
                                    ∷ (codes "        Remediation: " ++ remediation e.code))))))))
