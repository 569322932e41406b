-- ===== src/Errors/Logging/Fields.antt =====
-- What engine/errors/logging.go makes of the details of an error.
use mathlib.Core.List.{Perm}
use grimlocker_public.Base.{
  ◌≡◌, refl, ap, sym, ◌∙◌, ℕ, false, List, [], ◌∷◌, ◌++◌, Option, none, some, bytes_eq,
  if◌then◌else◌, Bool-cases, inl, inr,
}
use grimlocker_public.Base.Dict.{Key, Dict, lookup, insert, lookup-insert, bytes_eq_iff}
use grimlocker_public.Base.Dict.Distinct.{
  Distinct, head-absent, tail-Distinct, perm-Distinct, lookup-perm,
}
use grimlocker_public.Gql.Opcodes.{codes}
use grimlocker_public.Errors.{GrimlockError}
use grimlocker_public.Errors.Text.{StackFrame}
use grimlocker_public.Errors.Logging.{
  Field, number, text, put_text, put_details, put_stack, own_fields, log_fields,
}

abbrev pub as_field : Option (List ℕ) → Option Field
as_field none = none
as_field (some v) = some (text v)

-- A name that no detail gets.
abbrev IsFixed : Key → Type 0
IsFixed j = (k : Key) → bytes_eq (codes "detail_" ++ k) j ≡ false

lookup-put_details_other :
    (j : Key) (ds : Dict (List ℕ)) (m : Dict Field)
    → IsFixed j
    → lookup j (put_details ds m) ≡ lookup j m
unfolding put_details
lookup-put_details_other j [] m h = refl
lookup-put_details_other j ((k, v) ∷ ds) m h =
    lookup-put_details_other j ds _ h
    ∙ lookup-insert (codes "detail_" ++ k) j (text v) m
    ∙ rw (h k) refl

abbrev or_else : Option Field → Option Field → Option Field
or_else none o = o
or_else (some v) o = some v

or_else_step :
    (j k : Key) (v : List ℕ) (ds : Dict (List ℕ)) (o : Option Field)
    → lookup j ds ≡ none
    → or_else (as_field (lookup k ds)) (if bytes_eq j k then some (text v) else o)
      ≡ or_else (as_field (lookup k ((j, v) ∷ ds))) o
or_else_step j k v ds o h = elim (Bool-cases (bytes_eq j k)) [
  | inl same ↦
      let absent : lookup k ds ≡ none =
        ap (λ i. lookup i ds) (sym ((bytes_eq_iff j k).0 same)) ∙ h in
      rw (same, absent) refl
  | inr other ↦ rw other refl
]

lookup-put_details :
    (k : Key) (ds : Dict (List ℕ)) (m : Dict Field)
    → Distinct ds
    → lookup (codes "detail_" ++ k) (put_details ds m)
      ≡ or_else (as_field (lookup k ds)) (lookup (codes "detail_" ++ k) m)
unfolding put_details
lookup-put_details k [] m d = refl
lookup-put_details k ((j, v) ∷ ds) m d =
    lookup-put_details k ds (insert (codes "detail_" ++ j) (text v) m) (tail-Distinct j v ds d)
    ∙ ap (or_else (as_field (lookup k ds)))
        (lookup-insert (codes "detail_" ++ j) (codes "detail_" ++ k) (text v) m)
    ∙ or_else_step j k v ds _ (head-absent j v ds d)

lookup-put_text :
    (j key s : Key) (m : Dict Field)
    → bytes_eq key j ≡ false
    → lookup j (put_text key s m) ≡ lookup j m
lookup-put_text j key [] m h = refl
lookup-put_text j key (c ∷ s) m h = lookup-insert key j (text (c ∷ s)) m ∙ rw h refl

lookup-put_stack :
    (j : Key) (fs : List StackFrame) (m : Dict Field)
    → bytes_eq (codes "stacktrace") j ≡ false
    → lookup j (put_stack fs m) ≡ lookup j m
lookup-put_stack j [] m h = refl
lookup-put_stack j (f ∷ fs) m h = lookup-insert (codes "stacktrace") j _ m ∙ rw h refl

or_else-none : (o : Option Field) → or_else o none ≡ o
or_else-none none = refl
or_else-none (some v) = refl

-- What neither the details nor the fields that may be missing are called.
lookup-log_fields :
    (j : Key) (walk : Dict (List ℕ) → Dict (List ℕ)) (e : GrimlockError StackFrame)
    → bytes_eq (codes "stacktrace") j ≡ false
    → bytes_eq (codes "event_type") j ≡ false
    → bytes_eq (codes "block_id") j ≡ false
    → IsFixed j
    → lookup j (log_fields walk e) ≡ lookup j (own_fields e)
unfolding log_fields
lookup-log_fields j walk e no_stack no_event no_block fixed =
    lookup-put_stack j e.stack _ no_stack
    ∙ lookup-put_text j (codes "event_type") e.event_type _ no_event
    ∙ lookup-put_details_other j (walk e.ctx.details) _ fixed
    ∙ lookup-put_text j (codes "block_id") e.ctx.block_id (own_fields e) no_block

-- For a map of details that is walked in any order, the fields that are logged have the code, the
-- module and the operation of the error whatever the details are, and each detail under its key with
-- the prefix detail_.
pub log_fields_lem :
    (walk : Dict (List ℕ) → Dict (List ℕ)) (e : GrimlockError StackFrame)
    → Distinct e.ctx.details
    → Perm e.ctx.details (walk e.ctx.details)
    → let fields = log_fields walk e in
      (lookup (codes "error_code") fields ≡ some (number e.code))
      × (lookup (codes "module") fields ≡ some (text e.module_id))
      × (lookup (codes "operation") fields ≡ some (text e.ctx.operation))
      × ((k : Key) → lookup (codes "detail_" ++ k) fields ≡ as_field (lookup k e.ctx.details))
unfolding log_fields
log_fields_lem walk e d p = (
  lookup-log_fields (codes "error_code") walk e refl refl refl (λ k. refl),
  lookup-log_fields (codes "module") walk e refl refl refl (λ k. refl),
  lookup-log_fields (codes "operation") walk e refl refl refl (λ k. refl),
  λ k.
      let j = codes "detail_" ++ k in
      let ds = walk e.ctx.details in
      lookup-put_stack j e.stack _ refl
      ∙ lookup-put_text j (codes "event_type") e.event_type _ refl
      ∙ lookup-put_details k ds _ (perm-Distinct p d)
      ∙ ap (or_else (as_field (lookup k ds)))
          (lookup-put_text j (codes "block_id") e.ctx.block_id (own_fields e) refl)
      ∙ or_else-none (as_field (lookup k ds))
      ∙ ap as_field (sym (lookup-perm (hlevel) k p d)),
)
