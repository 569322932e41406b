-- ===== src/Security/IntrusionDetector/Pruning.antt =====
-- pruneWindow of engine/security/intrusion_detector.go, on lists that grow at their end.
use grimlocker_public.Base.{
  ℕ, ◌+◌, ◌≤◌, ◌≡◌, refl, sym, ap, ◌∙◌, List, [], ◌∷◌, ◌++◌, arith, ltb, if◌then◌else◌, length,
  length-append,
}
use grimlocker_public.Security.IntrusionDetector.{prune_window}

pub prune-prune :
    (w t now : ℕ) (ts : List ℕ)
    → t ≤ now
    → prune_window w now (prune_window w t ts) ≡ prune_window w now ts
unfolding prune_window
prune-prune w t now [] h = refl
prune-prune w t now (x ∷ ts) h = ground (arith, prune-prune w t now ts h)

-- What a time at the end adds to the result of pruning.
abbrev pub extend : ℕ → ℕ → ℕ → List ℕ → List ℕ
extend w now x [] = if ltb (x + w) now then [] else x ∷ []
extend w now x (y ∷ ys) = y ∷ ys ++ x ∷ []

pub prune-snoc :
    (w now x : ℕ) (xs : List ℕ)
    → prune_window w now (xs ++ x ∷ []) ≡ extend w now x (prune_window w now xs)
unfolding prune_window
prune-snoc w now x [] = refl
prune-snoc w now x (y ∷ ys) = ground (arith, prune-snoc w now x ys)

pub length-extend :
    (w now x : ℕ) (xs : List ℕ) → now ≤ x + w → length (extend w now x xs) ≡ length xs + 1
length-extend w now x [] h = ground arith
length-extend w now x (y ∷ ys) h = omega (arith, length-append ys (x ∷ []))

pub prune_noted :
    (w t u now : ℕ) (xs ys : List ℕ)
    → t ≤ now
    → prune_window w now xs ≡ prune_window w now ys
    → prune_window w now (prune_window w t xs ++ u ∷ []) ≡ prune_window w now (ys ++ u ∷ [])
prune_noted w t u now xs ys h e =
    prune-snoc w now u (prune_window w t xs)
    ∙ ap (extend w now u) (prune-prune w t now xs h ∙ e)
    ∙ sym (prune-snoc w now u ys)
