-- ===== src/Errors/Wrapping.antt =====
-- What engine/errors/types.go keeps of an error that passes several modules, and what it hides.
use grimlocker_public.Base.{◌≡◌, refl, ℕ, ◌<◌, List, [], ◌∷◌, length, take, lt→leb}
use grimlocker_public.Errors.{
  GrimlockError, GoError, no_error, plain_error, grimlock_error, Site, safe_prefix, new_error, wrap,
}
use grimlocker_public.Errors.Constructors.{new_crypto_handle_unknown_error}

-- The arguments of a call of Wrap.
pub record Wrapper (S : Type 0) : Type 0 where
  pub code : ℕ
  pub message : List ℕ
  pub site : Site S

module _ {P S : Type 0} where
  -- The calls of Wrap on the way of an error, the first one first.
  unfoldable pub wrap_all : List (Wrapper S) → GoError P S → GoError P S
  wrap_all [] e = e
  wrap_all (w ∷ ws) e = wrap_all ws (wrap w.code w.message w.site e)

  wrap_all-grimlock_error :
      (ws : List (Wrapper S)) (e : GrimlockError S) (cause : GoError P S)
      → wrap_all ws (grimlock_error e cause) ≡ grimlock_error e cause
  unfolding wrap_all wrap
  wrap_all-grimlock_error [] e cause = refl
  wrap_all-grimlock_error (w ∷ ws) e cause = wrap_all-grimlock_error ws e cause

  wrap_all-no_error :
      (ws : List (Wrapper S)) → ◌≡◌ {A = GoError P S} (wrap_all ws no_error) no_error
  unfolding wrap_all wrap
  wrap_all-no_error [] = refl
  wrap_all-no_error (w ∷ ws) = wrap_all-no_error ws

  -- However many modules wrap an error after a first one, it stays what the first one made of it.
  pub wrap_all_lem :
      (w : Wrapper S) (ws : List (Wrapper S)) (e : GoError P S)
      → wrap_all (w ∷ ws) e ≡ wrap w.code w.message w.site e
  unfolding wrap_all wrap new_error
  wrap_all_lem w ws no_error = wrap_all-no_error ws
  wrap_all_lem w ws (plain_error p) = wrap_all-grimlock_error ws _ (plain_error p)
  wrap_all_lem w ws (grimlock_error e cause) = wrap_all-grimlock_error ws e cause

  -- The error for an unknown handle of more than 8 bytes depends on nothing of it but its first 8.
  pub new_crypto_handle_unknown_error-hides :
      (h h' : List ℕ) (site : Site S)
      → 8 < length h
      → 8 < length h'
      → take 8 h ≡ take 8 h'
      → new_crypto_handle_unknown_error {P = P} h site ≡ new_crypto_handle_unknown_error h' site
  unfolding new_crypto_handle_unknown_error safe_prefix
  new_crypto_handle_unknown_error-hides h h' site long long' e =
      rw (lt→leb (length h) 8 long, lt→leb (length h') 8 long', e) refl
