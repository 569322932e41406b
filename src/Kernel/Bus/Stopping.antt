-- ===== src/Kernel/Bus/Stopping.antt =====
-- Shutdown of engine/kernel/bus.go. The modules are stopped at the same time; their Stop methods take
-- effect in some order, a walk of the map of modules. `stop` is the method, over the state of the
-- modules, with its error.
use mathlib.Core.List.{append_assoc, append-nil}
use mathlib.Core.List.{Perm}
use mathlib.Core.List.Perm
use grimlocker_public.Base.{
  ◌≡◌, refl, sym, ◌∙◌, true, List, [], ◌∷◌, ◌++◌, Option, none, some, map, subst, Option-cases, inl,
  inr,
}
use grimlocker_public.Base.Dict.{Key, Dict}
use grimlocker_public.Kernel.Bus.{Module, Bus, shutdown}

module _ {H E W : Type 0} (stop : Module H → W → Option E × W) where
  -- The modules stopped in an order, with the errors that are logged.
  unfoldable pub stop_all : Dict (Module H) → W → List (Key × E) × W
  stop_all [] w = ([], w)
  stop_all ((k, m) ∷ ms) w =
      let stopped = stop m w in
      let rest = stop_all ms stopped.1 in
      elim stopped.0 [ none ↦ rest | some e ↦ ((m.id, e) ∷ rest.0, rest.1) ]

  -- When every Stop returns before the context of the call is done; the bus is cancelled then, and
  -- Shutdown has no error.
  unfoldable pub shutdown_modules :
      (Dict (Module H) → Dict (Module H)) → Bus H → W → Bus H × List (Key × E) × W
  shutdown_modules walk b w =
      let stopped = stop_all (walk b.modules) w in (shutdown b, stopped.0, stopped.1)

-- A Stop method that also writes down which module it is called for.
abbrev pub recorded :
    {H E W : Type 0}
    → (Module H → W → Option E × W)
    → Module H
    → List (Module H) × W
    → Option E × (List (Module H) × W)
recorded stop m (seen, w) = let s = stop m w in (s.0, (seen ++ m ∷ [], s.1))

abbrev pub module_of : {H : Type 0} → Key × Module H → Module H
module_of e = e.1

module _ {H E W : Type 0} (stop : Module H → W → Option E × W) where
  stop_all-recorded :
      (ms : Dict (Module H)) (seen : List (Module H)) (w : W)
      → (stop_all (recorded stop) ms (seen, w)).1.0 ≡ seen ++ map module_of ms
  unfolding stop_all
  stop_all-recorded [] seen w = sym (append-nil seen)
  stop_all-recorded ((k, m) ∷ ms) seen w =
      let next = stop_all-recorded ms (seen ++ m ∷ []) (stop m w).1 in
      let all_seen = append_assoc seen (m ∷ []) (map module_of ms) in
      elim (Option-cases (stop m w).0) [
        | inl stopped ↦ rw (stop_all, stopped) (next ∙ all_seen)
        | inr (e, failed) ↦ rw (stop_all, failed) (next ∙ all_seen)
      ]

  -- Shutdown calls the Stop method of every registered module once, also when others fail, and leaves
  -- the bus cancelled.
  pub shutdown_modules-stops :
      (walk : Dict (Module H) → Dict (Module H)) (b : Bus H) (w : W)
      → Perm b.modules (walk b.modules)
      → let after = shutdown_modules (recorded stop) walk b ([], w) in
        Perm (map module_of b.modules) after.2.0 × (after.0.is_cancelled ≡ true)
  unfolding shutdown_modules shutdown
  shutdown_modules-stops walk b w p = (
    subst (Perm (map module_of b.modules)) (sym (stop_all-recorded (walk b.modules) [] w))
        (Perm.map module_of p),
    refl,
  )
