-- ===== src/Errors/Tests.antt =====
-- An error that is logged, and the theorem at it.
use mathlib.Core.List.{Nodup-nil}
use mathlib.Core.List.Perm
use grimlocker_public.Base.{◌≡◌, ℕ, List, [], ◌∷◌, ◌++◌, some}
use grimlocker_public.Base.Int.{pos}
use grimlocker_public.Base.Dict.{Key, Dict, lookup}
use grimlocker_public.Base.Dict.Distinct.{Distinct, insert-Distinct}
use grimlocker_public.Gql.Opcodes.{codes}
use grimlocker_public.Errors.{GrimlockError}
use grimlocker_public.Errors.Text.{StackFrame}
use grimlocker_public.Errors.Logging.{number, text, log_fields}
use grimlocker_public.Errors.Logging.Fields.{as_field, log_fields_lem}

-- An error with a detail that has the name of a field.
abbrev detailed : GrimlockError StackFrame
detailed = record {
  code = 2001;
  message = codes "write failed";
  ctx = record {
    block_id = codes "b1";
    operation = codes "write_block";
    details = (codes "module", codes "disk") ∷ (codes "path", codes "/vault") ∷ [];
  };
  stack = record { file = codes "store.go"; line = pos 12; function = codes "Write" } ∷ [];
  timestamp = 5;
  module_id = codes "storage";
  event_type = [];
}

abbrev as_it_is : Dict (List ℕ) → Dict (List ℕ)
as_it_is m = m

detailed-Distinct : Distinct detailed.ctx.details
detailed-Distinct =
    insert-Distinct (codes "path") (codes "/vault") ((codes "module", codes "disk") ∷ [])
      (insert-Distinct (codes "module") (codes "disk") [] Nodup-nil)

log_fields_lem_example :
    let fields = log_fields as_it_is detailed in
    (lookup (codes "error_code") fields ≡ some (number 2001))
    × (lookup (codes "module") fields ≡ some (text (codes "storage")))
    × (lookup (codes "operation") fields ≡ some (text (codes "write_block")))
    × ((k : Key) → lookup (codes "detail_" ++ k) fields ≡ as_field (lookup k detailed.ctx.details))
log_fields_lem_example =
    log_fields_lem as_it_is detailed detailed-Distinct (Perm.refl detailed.ctx.details)
