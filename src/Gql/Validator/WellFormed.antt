-- ===== src/Gql/Validator/WellFormed.antt =====
-- The syntactic stage: which decoded queries validateQuery accepts.
use mathlib.Core.List.{Perm}
use mathlib.Core.List.Perm
use native.Mathlib.Bridge.{le_prop}
use Prim.Native.String.{String}
use grimlocker_public.Base.{
  ℕ, ◌≤◌, ◌≡◌, refl, ◌↔◌, Bool, true, false, not, ◌&&◌, List, [], ◌∷◌, arith, length, All, All-prop,
  ltb, ◌==◌, ltb→le, le→ltb,
}
use grimlocker_public.Base.Dict.Distinct.{All-perm}
use grimlocker_public.Base.Outcome.{ok, ◌>>◌, >>-iff, guard_iff, done_iff}
use grimlocker_public.Gql.Opcodes.{
  opcode_query, opcode_mutate, max_namespace_len, max_entry_id_len, max_category_len,
  max_field_key_len, max_field_value_len, max_fields_count, is_read_operation, is_write_operation,
}
use grimlocker_public.Gql.Query.{Fields, Query}
use grimlocker_public.Gql.Utf8.Checks.{Pass}
use grimlocker_public.Gql.Validator.{
  Check, is_empty, if_given, validate_string_field, validate_identifier, validate_printable,
  validate_fields, validate_query,
}
use grimlocker_public.Gql.Validator.Strings.{
  is_name_char, is_text_char, IsIdentifier, IsText, validate_identifier_iff, validate_printable_iff,
  validate_string_field_iff,
}

-- One entry of the map.
pub record IsEntry (e : List ℕ × List ℕ) : Type 0 where
  pub key_fits : length e.0 ≤ 64
  pub key_clean : IsIdentifier e.0
  pub value_fits : length e.1 ≤ 8192
  pub value_clean : IsText e.1

-- What validateQuery asks of a query in a frame with this opcode. It is less than its comments ask:
-- the entry identifier may be empty for every operation, a namespace may have dots, and a text tabs.
pub record IsWellFormed (q : Query) (opcode : ℕ) : Type 0 where
  pub namespace_given : is_empty q.namespace ≡ false
  pub namespace_fits : length q.namespace ≤ 128
  pub namespace_clean : IsIdentifier q.namespace
  pub entry_id_fits : length q.entry_id ≤ 64
  pub entry_id_clean : IsIdentifier q.entry_id
  pub category_fits : length q.category ≤ 32
  pub category_clean : IsIdentifier q.category
  pub title_fits : length q.title ≤ 8192
  pub title_clean : IsText q.title
  pub fields_few : length q.fields ≤ 100
  pub fields_clean : All IsEntry q.fields
  pub query_reads : opcode ≡ 1 → is_read_operation q.operation ≡ true
  pub mutate_writes : opcode ≡ 2 → is_write_operation q.operation ≡ true

-- A field of at most so many bytes from an alphabet.
abbrev Fits : (List ℕ → Type 0) → ℕ → List ℕ → Type 0
Fits P max_len s = (((false && is_empty s) ≡ false) × (length s ≤ max_len)) × P s

-- An optional field: the empty string passes every check.
optional :
    (s : List ℕ) (check : Check) (P : List ℕ → Type 0)
    → P []
    → ((check ≡ ok tt) ↔ P s)
    → (if_given s check ≡ ok tt) ↔ P s
optional [] check P e iff = (λ h. e, λ h. refl)
optional (c ∷ s) check P e iff = iff

optional-IsIdentifier :
    (name : String) (s : List ℕ) (max_len : ℕ)
    → (if_given s (validate_string_field name s false max_len >> validate_identifier name s)
        ≡ ok tt)
      ↔ Fits IsIdentifier max_len s
optional-IsIdentifier name s max_len =
    optional s _ (Fits IsIdentifier max_len) ((refl, omega arith), tt)
      (>>-iff (validate_string_field_iff name s false max_len) (validate_identifier_iff name s))

optional-IsText :
    (name : String) (s : List ℕ) (max_len : ℕ)
    → (if_given s (validate_string_field name s false max_len >> validate_printable name s) ≡ ok tt)
      ↔ Fits IsText max_len s
optional-IsText name s max_len =
    optional s _ (Fits IsText max_len) ((refl, omega arith), tt)
      (>>-iff (validate_string_field_iff name s false max_len) (validate_printable_iff name s))

IsEntry-iff :
    (k v : List ℕ)
    → ((((false && is_empty k) ≡ false) × (length k ≤ max_field_key_len))
        × (IsIdentifier k
            × ((((false && is_empty v) ≡ false) × (length v ≤ max_field_value_len)) × IsText v)))
      ↔ IsEntry (k, v)
IsEntry-iff k v = (
  λ (a, (b, (c, d))). record { key_fits = a.1; key_clean = b; value_fits = c.1; value_clean = d },
  λ e. ((refl, e.key_fits), (e.key_clean, ((refl, e.value_fits), e.value_clean))),
)

fields_iff : (fs : Fields) → (validate_fields fs ≡ ok tt) ↔ All IsEntry fs
unfolding validate_fields
fields_iff [] = done_iff
fields_iff ((k, v) ∷ fs) =
    let checks = >>-iff (validate_string_field_iff "fields.key" k false max_field_key_len) (
      >>-iff (validate_identifier_iff "fields.key" k) (
        >>-iff (validate_string_field_iff "fields.value" v false max_field_value_len)
          (>>-iff (validate_printable_iff "fields.value" v) (fields_iff fs)))) in
    (
      λ h. let (a, (b, (c, (d, r)))) = checks.0 h in ((IsEntry-iff k v).0 (a, (b, (c, d))), r),
      λ (e, r). let (a, (b, (c, d))) = (IsEntry-iff k v).1 e in checks.1 (a, (b, (c, (d, r)))),
    )

Pass-prop : (t : ℕ → Bool) (s : List ℕ) → IsProp (All (Pass t) s)
Pass-prop t s = All-prop (Pass t) (λ c. (hlevel)) s

IsEntry-prop : (e : List ℕ × List ℕ) → IsProp (IsEntry e)
IsEntry-prop e x y i = record {
  key_fits = le_prop x.key_fits y.key_fits i;
  key_clean = Pass-prop is_name_char e.0 x.key_clean y.key_clean i;
  value_fits = le_prop x.value_fits y.value_fits i;
  value_clean = Pass-prop is_text_char e.1 x.value_clean y.value_clean i;
}

-- In whatever order the map is walked, the syntactic stage accepts a query exactly if it is well
-- formed for the opcode of its frame.
pub validate_query_iff :
    (walk : Fields → Fields) (q : Query) (opcode : ℕ)
    → Perm (walk q.fields) q.fields
    → (validate_query walk q opcode ≡ ok tt) ↔ IsWellFormed q opcode
unfolding validate_query
validate_query_iff walk q opcode p =
    let checks = >>-iff (validate_string_field_iff "namespace" q.namespace true max_namespace_len) (
      >>-iff (validate_identifier_iff "namespace" q.namespace) (
        >>-iff (optional-IsIdentifier "entry_id" q.entry_id max_entry_id_len) (
          >>-iff (optional-IsIdentifier "category" q.category max_category_len) (
            >>-iff (optional-IsText "title" q.title max_field_value_len) (
              >>-iff (guard_iff (ltb max_fields_count (length q.fields)) _) (
                >>-iff (fields_iff (walk q.fields)) (
                  >>-iff
                    (guard_iff ((opcode == opcode_query) && not (is_read_operation q.operation)) _)
                    (>>-iff
                      (guard_iff ((opcode == opcode_mutate) && not (is_write_operation q.operation))
                        _)
                      done_iff)))))))) in
    (
      λ h.
          let (n, (chars, (e, (c, (t, (count, (entries, (reads, (writes, _))))))))) = checks.0 h in
          record {
            namespace_given = n.0;
            namespace_fits = n.1;
            namespace_clean = chars;
            entry_id_fits = e.0.1;
            entry_id_clean = e.1;
            category_fits = c.0.1;
            category_clean = c.1;
            title_fits = t.0.1;
            title_clean = t.1;
            fields_few = ltb→le _ _ count;
            fields_clean = All-perm IsEntry IsEntry-prop p entries;
            query_reads = λ o. ground arith;
            mutate_writes = λ o. ground arith;
          },
      λ w. checks.1 (
        (w.namespace_given, w.namespace_fits),
        (
          w.namespace_clean,
          (
            ((refl, w.entry_id_fits), w.entry_id_clean),
            (
              ((refl, w.category_fits), w.category_clean),
              (
                ((refl, w.title_fits), w.title_clean),
                (
                  le→ltb _ _ w.fields_few,
                  (
                    All-perm IsEntry IsEntry-prop (Perm.symm p) w.fields_clean,
                    (ground (arith, w.query_reads), (ground (arith, w.mutate_writes), tt)),
                  ),
                ),
              ),
            ),
          ),
        ),
      ),
    )
