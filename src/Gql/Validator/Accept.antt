-- ===== src/Gql/Validator/Accept.antt =====
-- Both stages together: what ValidateFrame returns, and when.
use mathlib.Core.List.{Perm}
use grimlocker_public.Base.{
  ℕ, ◌≤◌, ◌≡◌, sym, ap, ◌∙◌, ◌↔◌, ◌⊎◌, ◌≢◌, true, false, not, ◌||◌, List, [], Option, none, some,
  arith, length, ltb, get_or, ◌==◌, ltb→le, le→ltb,
}
use grimlocker_public.Base.Outcome.{
  Outcome, ok, err, map_err, ◌>>=◌, >>=-eq-ok, >>-eq-ok, guard-eq-ok,
}
use grimlocker_public.Gql.Opcodes.{
  version, opcode_query, opcode_mutate, opcode_result, opcode_error, max_payload_size,
  is_valid_opcode, is_valid_operation, is_write_operation, operations_partition,
}
use grimlocker_public.Gql.Frame.{Frame}
use grimlocker_public.Gql.Query.{Fields, Query}
use grimlocker_public.Gql.Query.Decode.{decode_query}
use grimlocker_public.Gql.Validator.{
  SessionInfo, ValidationError, validate_payload_bytes, validate_query, validate_acl,
  validate_request, validate_frame,
}
use grimlocker_public.Gql.Validator.WellFormed.{IsWellFormed, validate_query_iff}
use grimlocker_public.Gql.Validator.Access.{IsAuthorized, validate_acl_iff}

-- What it means that a frame is a request which the session may make, for the query `q`.
pub record IsRequest (f : Frame) (session : Option SessionInfo) (q : Query) : Type 0 where
  pub current : f.version ≡ 1
  pub asks : (f.opcode ≡ 1) ⊎ (f.opcode ≡ 2)
  pub fits : f.payload_size ≤ 16_777_216
  pub decodes : decode_query f.payload [] ≡ ok q
  pub well_formed : IsWellFormed q f.opcode
  pub authorized : (s : SessionInfo) × (session ≡ some s) × IsAuthorized q s

-- What a payload that decodes must look like.
decode_needs :
    (p op : List ℕ) {q : Query} → decode_query p op ≡ ok q → validate_payload_bytes p ≡ ok tt
unfolding decode_query validate_payload_bytes
decode_needs p op h =
    let (a, r) = guard-eq-ok (ltb (length p) 1) _ _ h in
    let (b, _) = guard-eq-ok (ltb 100 (get_or p 0 0)) _ _ r in ground arith

payload_given : (p op : List ℕ) {q : Query} → decode_query p op ≡ ok q → (length p == 0) ≡ false
unfolding decode_query
payload_given p op h = let (a, _) = guard-eq-ok (ltb (length p) 1) _ _ h in ground arith

map_err-eq-ok :
    {E F A : Type 0} (g : E → F) (m : Outcome E A) {a : A} → map_err g m ≡ ok a → m ≡ ok a
map_err-eq-ok g (ok a) h = cc
map_err-eq-ok g (err e) h = cc

module _ (walk : Fields → Fields) (walks : (fs : Fields) → Perm (walk fs) fs) where
  IsRequest-sound :
      (f : Frame) (session : Option SessionInfo) (q : Query)
      → f.version ≡ version
      → validate_request walk f session ≡ ok q
      → IsRequest f session q
  unfolding validate_request
  IsRequest-sound f session q current h =
      let (fits, h1) = guard-eq-ok (ltb max_payload_size f.payload_size) _ _ h in
      let (_, h2) = guard-eq-ok (length f.payload == 0) _ _ h1 in
      let (_, h3) = >>-eq-ok (validate_payload_bytes f.payload) _ h2 in
      let (asks, h4) =
        guard-eq-ok (not ((f.opcode == opcode_query) || (f.opcode == opcode_mutate))) _ _ h3 in
      let (q', decodes, h5) = >>=-eq-ok (map_err _ (decode_query f.payload [])) _ h4 in
      let (formed, h6) = >>-eq-ok (validate_query walk q' f.opcode) _ h5 in
      let (allowed, same) = >>-eq-ok (validate_acl q' session) _ h6 in
      let e : q' ≡ q = cc in
      rw (← e) (record {
        current = current;
        asks = ground arith;
        fits = ltb→le _ _ fits;
        decodes = map_err-eq-ok _ (decode_query f.payload []) decodes;
        well_formed = (validate_query_iff walk q' f.opcode (walks q'.fields)).0 formed;
        authorized = (validate_acl_iff q' session).0 allowed;
      })

  request_complete :
      (f : Frame) (session : Option SessionInfo) (q : Query)
      → IsRequest f session q
      → validate_request walk f session ≡ ok q
  unfolding validate_request
  request_complete f session q r =
      let present = decode_needs f.payload [] r.decodes in
      let nonempty : (length f.payload == 0) ≡ false = payload_given f.payload [] r.decodes in
      let asks : not ((f.opcode == opcode_query) || (f.opcode == opcode_mutate)) ≡ false =
        ground (arith, r.asks) in
      rw (
        le→ltb _ _ r.fits,
        nonempty,
        present,
        asks,
        r.decodes,
        (validate_query_iff walk q f.opcode (walks q.fields)).1 r.well_formed,
        (validate_acl_iff q session).1 r.authorized,
      )

  -- If the run time walks maps in some order, a frame passes with a query exactly if it is a request
  -- in the current version, no larger than the limit, whose payload decodes to that query, which the
  -- session may make, and whose query has a namespace, all its strings within their lengths and
  -- alphabets, no more fields than the limit, and an operation of the frame's kind. The entry
  -- identifier may be empty, also when the operation is to get, update or delete an entry.
  pub validate_frame_iff :
      (f : Frame) (session : Option SessionInfo) (q : Query)
      → (validate_frame walk f session ≡ ok (some q)) ↔ IsRequest f session q
  unfolding validate_frame
  validate_frame_iff f session q = (sound, complete)
    where
      request : Outcome ValidationError (Option Query)
      request = validate_request walk f session >>= λ r. ok (some r)

      sound : validate_frame walk f session ≡ ok (some q) → IsRequest f session q
      sound h =
          let (current, h1) = guard-eq-ok (not (f.version == version)) _ _ h in
          let (_, h2) = guard-eq-ok (not (is_valid_opcode f.opcode)) _ _ h1 in
          let asked : request ≡ ok (some q) = ground (arith, h2) in
          let (q', passed, same) = >>=-eq-ok (validate_request walk f session) _ asked in
          let e : q' ≡ q = cc in
          IsRequest-sound f session q (ground arith) (passed ∙ ap (λ x. ok x) e)

      complete : IsRequest f session q → validate_frame walk f session ≡ ok (some q)
      complete r = ground (arith, request_complete f session q r, r.asks, r.current)

  -- It passes without a query exactly if it is a result or error frame in the current version;
  -- the session is not looked at.
  pub validate_frame-none_iff :
      (f : Frame) (session : Option SessionInfo)
      → (validate_frame walk f session ≡ ok none)
        ↔ ((f.version ≡ version) × ((f.opcode ≡ opcode_result) ⊎ (f.opcode ≡ opcode_error)))
  unfolding validate_frame
  validate_frame-none_iff f session = (passed, λ h. ground (arith, h))
    where
      request : Outcome ValidationError (Option Query)
      request = validate_request walk f session >>= λ r. ok (some r)

      no_query : request ≡ ok none → ⊥
      no_query h = let (_, _, e) = >>=-eq-ok (validate_request walk f session) _ h in cc

      passed :
          validate_frame walk f session ≡ ok none
          → (f.version ≡ version) × ((f.opcode ≡ opcode_result) ⊎ (f.opcode ≡ opcode_error))
      passed h =
          let (current, h1) = guard-eq-ok (not (f.version == version)) _ _ h in
          let (_, h2) = guard-eq-ok (not (is_valid_opcode f.opcode)) _ _ h1 in
          ground (arith, h2, no_query)

  -- An accepted query asks for a known operation, which writes exactly if the frame is a mutation,
  -- and then carries credentials; its session is unlocked.
  pub accepted_operation :
      (f : Frame) (s : SessionInfo) (q : Query)
      → validate_frame walk f (some s) ≡ ok (some q)
      → (is_valid_operation q.operation ≡ true)
        × (is_write_operation q.operation ≡ (f.opcode == opcode_mutate))
        × (is_write_operation q.operation ≡ true → q.credentials ≢ [])
        × (s.is_unlocked ≡ true)
  accepted_operation f s q h =
      let r = (validate_frame_iff f (some s) q).0 h in
      let (t, e, allowed) = r.authorized in
      let same : t ≡ s = cc in
      let (valid, apart) = operations_partition q.operation in
      let reads = r.well_formed.query_reads in
      let writes = r.well_formed.mutate_writes in
      (
        ground (arith, valid, reads, writes, r.asks),
        ground (arith, apart, reads, writes, r.asks),
        allowed.has_credentials,
        ap (λ x. x.is_unlocked) (sym same) ∙ allowed.unlocked,
      )
