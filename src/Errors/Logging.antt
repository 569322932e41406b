-- ===== src/Errors/Logging.antt =====
-- Log and StdLogger of engine/errors/logging.go. A map of fields that is nil is `none`; the line that is
-- printed stands without its time.
pub mod Fields
use grimlocker_public.Base.{
  ℕ, Bool, true, false, List, [], ◌∷◌, ◌++◌, Option, none, some, map, if◌then◌else◌,
}
use grimlocker_public.Base.Dict.{Key, Dict, insert}
use grimlocker_public.Base.Decimal.{decimal}
use grimlocker_public.Gql.Opcodes.{codes}
use grimlocker_public.Errors.{GrimlockError, GoError, no_error, plain_error, grimlock_error}
use grimlocker_public.Errors.Text.{StackFrame, frame_string, error_text, console_format}

-- The values that fields have.
pub data Field : Type 0 where
  number : ℕ → Field
  text : List ℕ → Field
  texts : List (List ℕ) → Field

-- `if s != "" { fields[key] = s }`
abbrev pub put_text : Key → List ℕ → Dict Field → Dict Field
put_text key [] m = m
put_text key (c ∷ s) m = insert key (text (c ∷ s)) m

-- The loop over the details.
unfoldable pub put_details : Dict (List ℕ) → Dict Field → Dict Field
put_details [] m = m
put_details ((k, v) ∷ ds) m = put_details ds (insert (codes "detail_" ++ k) (text v) m)

abbrev pub put_stack : List StackFrame → Dict Field → Dict Field
put_stack [] m = m
put_stack (f ∷ fs) m = insert (codes "stacktrace") (texts (map frame_string (f ∷ fs))) m

-- The fields that an error always has.
abbrev pub own_fields : {S : Type 0} → GrimlockError S → Dict Field
own_fields e =
    (codes "error_code", number e.code)
    ∷ (codes "module", text e.module_id)
    ∷ (codes "operation", text e.ctx.operation)
    ∷ []

-- The fields that Log gives to the logger.
unfoldable pub log_fields : (Dict (List ℕ) → Dict (List ℕ)) → GrimlockError StackFrame → Dict Field
log_fields walk e = put_stack e.stack (
    put_text (codes "event_type") e.event_type (
      put_details (walk e.ctx.details) (put_text (codes "block_id") e.ctx.block_id (own_fields e))))

pub record StdLogger : Type 0 where
  pub prefix : List ℕ
  pub debug_enabled : Bool

unfoldable pub new_std_logger : List ℕ → StdLogger
new_std_logger module_prefix = record { prefix = module_prefix; debug_enabled = false }

unfoldable pub new_debug_logger : List ℕ → StdLogger
new_debug_logger module_prefix = record { prefix = module_prefix; debug_enabled = true }

-- `%v` of a slice of strings puts spaces between them.
abbrev spaced : List (List ℕ) → List ℕ
spaced [] = []
spaced (s ∷ []) = s
spaced (s ∷ t ∷ ts) = s ++ (codes " " ++ spaced (t ∷ ts))

abbrev pub field_text : Field → List ℕ
field_text (number n) = decimal n
field_text (text s) = s
field_text (texts ts) = codes "[" ++ (spaced ts ++ codes "]")

abbrev pub field_list : Dict Field → List ℕ
field_list [] = []
field_list ((k, v) ∷ fs) = codes " " ++ (k ++ (codes "=" ++ (field_text v ++ field_list fs)))

abbrev pub prefix_text : List ℕ → List ℕ
prefix_text [] = []
prefix_text (c ∷ cs) = (c ∷ cs) ++ codes " "

-- `range` over a nil map has no rounds.
abbrev pub entries : Option (Dict Field) → Dict Field
entries none = []
entries (some m) = m

module _ (walk : Dict Field → Dict Field) where
  unfoldable pub format : StdLogger → List ℕ → List ℕ → Option (Dict Field) → List ℕ
  format l level msg fields =
      prefix_text l.prefix
      ++ (codes "[" ++ (level ++ (codes "] " ++ (msg ++ field_list (walk (entries fields))))))

  -- Debug, with the lines that are printed.
  unfoldable pub debug : StdLogger → List ℕ → Option (Dict Field) → List (List ℕ)
  debug l msg fields = if l.debug_enabled then format l (codes "DEBUG") msg fields ∷ [] else []

  unfoldable pub info : StdLogger → List ℕ → Option (Dict Field) → List (List ℕ)
  info l msg fields = format l (codes "INFO") msg fields ∷ []

  unfoldable pub warn : StdLogger → List ℕ → Option (Dict Field) → List (List ℕ)
  warn l msg fields = format l (codes "WARN") msg fields ∷ []

-- The map of fields with one more, and whether the caller has it: a nil map is replaced by a new one.
abbrev pub with_field : Key → Field → Option (Dict Field) → Dict Field
with_field key v fields = insert key v (entries fields)

abbrev pub seen_by_caller : Option (Dict Field) → Dict Field → Option (Dict Field)
seen_by_caller none m = none
seen_by_caller (some _) m = some m

module _ {P : Type 0} (walk : Dict Field → Dict Field)
    (walk_details : Dict (List ℕ) → Dict (List ℕ)) (print : P → List ℕ) where
  -- Error: the lines that are printed, and the caller's map afterwards.
  unfoldable pub error :
      StdLogger
      → List ℕ
      → GoError P StackFrame
      → Option (Dict Field)
      → List (List ℕ) × Option (Dict Field)
  error l msg no_error fields = (format walk l (codes "ERROR") msg fields ∷ [], fields)
  error l msg (plain_error p) fields =
      let m = with_field (codes "error") (text (print p)) fields in
      (format walk l (codes "ERROR") msg (some m) ∷ [], seen_by_caller fields m)
  error l msg (grimlock_error e cause) fields =
      let shown = console_format print walk_details e cause in
      let m = with_field (codes "grimlock_error") (text shown) fields in
      (format walk l (codes "ERROR") msg (some m) ∷ [], seen_by_caller fields m)

  -- Fatal: the line after which the process ends.
  unfoldable pub fatal : StdLogger → List ℕ → GoError P StackFrame → Option (Dict Field) → List ℕ
  fatal l msg no_error fields = format walk l (codes "FATAL") msg fields
  fatal l msg (plain_error p) fields =
      format walk l (codes "FATAL") msg (some (with_field (codes "error") (text (print p)) fields))
  fatal l msg (grimlock_error e cause) fields =
      let shown = error_text print (grimlock_error e cause) in
      format walk l (codes "FATAL") msg (some (with_field (codes "error") (text shown) fields))

  -- Log
  unfoldable pub log_to :
      StdLogger → GrimlockError StackFrame → GoError P StackFrame → List (List ℕ)
  log_to l e cause = (error l e.message cause (some (log_fields walk_details e))).0
