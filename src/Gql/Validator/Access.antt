-- ===== src/Gql/Validator/Access.antt =====
-- The semantic stage: which queries validateACL lets through.
use grimlocker_public.Base.{
  ◌≡◌, refl, ◌↔◌, ◌⊎◌, ◌≢◌, true, not, ◌&&◌, [], Option, none, some, arith, length, ◌==◌, bytes_eq,
  nil_of_length, subst, sym,
}
use grimlocker_public.Base.Dict.{bytes_eq_iff}
use grimlocker_public.Base.Outcome.{ok, >>-iff, guard_iff, done_iff}
use grimlocker_public.Gql.Opcodes.{is_write_operation}
use grimlocker_public.Gql.Query.{Query}
use grimlocker_public.Gql.Validator.{SessionInfo, is_empty, admin, authorize, validate_acl}

-- Who may run a query: an unlocked session with a key handle; with credentials, if it writes; and
-- in its own namespace, unless the session has no user or the role of an administrator.
pub record IsAuthorized (q : Query) (s : SessionInfo) : Type 0 where
  pub unlocked : s.is_unlocked ≡ true
  pub has_handle : s.active_handle ≢ []
  pub has_credentials : is_write_operation q.operation ≡ true → q.credentials ≢ []
  pub own_namespace :
      (s.user_id ≡ []) ⊎ (q.namespace ≡ []) ⊎ (q.namespace ≡ s.user_id) ⊎ (s.has_role admin ≡ true)

authorize_iff : (q : Query) (s : SessionInfo) → (authorize q s ≡ ok tt) ↔ IsAuthorized q s
unfolding authorize
authorize_iff q s =
    let checks = >>-iff (guard_iff (not s.is_unlocked) _) (
      >>-iff (guard_iff (is_empty s.active_handle) _) (
        >>-iff (guard_iff (is_write_operation q.operation && (length q.credentials == 0)) _) (
          >>-iff
            (guard_iff
              (not (is_empty s.user_id)
                && (not (is_empty q.namespace)
                    && (not (bytes_eq q.namespace s.user_id) && not (s.has_role admin))))
              _)
            done_iff))) in
    let handle = bytes_eq_iff s.active_handle [] in
    let user = bytes_eq_iff s.user_id [] in
    let namespace = bytes_eq_iff q.namespace [] in
    let same = bytes_eq_iff q.namespace s.user_id in
    (
      λ h.
          let (a, (b, (c, (d, _)))) = checks.0 h in
          record {
            unlocked = ground arith;
            has_handle = λ e. ground (arith, handle);
            has_credentials = λ w e. ground arith;
            own_namespace = ground (arith, user, namespace, same);
          },
      λ w. checks.1 (
        ground (arith, w.unlocked),
        (
          ground (arith, handle, w.has_handle),
          (
            ground (arith, w.has_credentials, nil_of_length q.credentials),
            (ground (arith, user, namespace, same, w.own_namespace), tt),
          ),
        ),
      ),
    )

-- The semantic stage accepts a query exactly if there is a session that is authorised for it.
pub validate_acl_iff :
    (q : Query) (session : Option SessionInfo)
    → (validate_acl q session ≡ ok tt) ↔ ((s : SessionInfo) × (session ≡ some s) × IsAuthorized q s)
unfolding validate_acl
validate_acl_iff q none = (λ h. cc, λ (s, e, w). cc)
validate_acl_iff q (some s) = (
  λ h. (s, refl, (authorize_iff q s).0 h),
  λ (t, e, w). let same : s ≡ t = cc in (authorize_iff q s).1 (subst (IsAuthorized q) (sym same) w),
)
