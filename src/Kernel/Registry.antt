-- ===== src/Kernel/Registry.antt =====
-- engine/kernel/registry.go, over the bus of engine/kernel/bus.go, and the BaseModule of
-- engine/kernel/module_factory.go. Starting a module may use the bus: `start` is its Start method.
pub mod Startup
use grimlocker_public.Base.{
  Bool, true, false, List, [], ◌∷◌, ◌++◌, ℕ, Option, none, some, if◌then◌else◌,
}
use grimlocker_public.Base.Dict.{Key}
use grimlocker_public.Base.Outcome.{Outcome}
use grimlocker_public.Kernel.Bus.{Bus, Module, register}

pub record ModuleConfig : Type 0 where
  pub id : Key
  pub channels : List Key
  pub debug_logging : Bool

pub record BaseModule : Type 0 where
  pub id : Key
  pub channels : List Key

-- NewBaseModule
unfoldable pub base_module : ModuleConfig → BaseModule
base_module cfg = record { id = cfg.id; channels = cfg.channels }

-- ModuleFactory, and FactoryFunc, a function that is one; an error is an `E`.
pub record ModuleFactory (E M : Type 0) : Type 0 where
  pub create : ModuleConfig → Outcome E M

abbrev pub factory_func : {E M : Type 0} → (ModuleConfig → Outcome E M) → ModuleFactory E M
factory_func f = record { create = f }

pub record Registry (H : Type 0) : Type 0 where
  pub bus : Bus H
  pub started : List (Module H)

-- The error of a Start, with the module's identifier.
pub record StartError (E : Type 0) : Type 0 where
  pub id : Key
  pub cause : E

module _ {H : Type 0} where
  unfoldable pub new_registry : Bus H → Registry H
  new_registry b = record { bus = b; started = [] }

  -- Modules returns a copy.
  unfoldable pub modules : Registry H → List (Module H)
  modules r = r.started

  -- Add; the Boolean tells whether there is no error.
  unfoldable pub add : (List ℕ → List ℕ) → Module H → Registry H → Bool × Registry H
  add to_upper m r =
      let res = register to_upper m r.bus in
      if res.0
      then (true, record { bus = res.1; started = r.started ++ m ∷ [] })
      else (false, record r { bus = res.1 })

module _ {H E : Type 0} (start : Module H → Bus H → Option E × Bus H) where
  -- The loop of StartAll.
  unfoldable pub start_each : List (Module H) → Bus H → Option (StartError E) × Bus H
  start_each [] b = (none, b)
  start_each (m ∷ ms) b =
      let s = start m b in
      let rest = start_each ms s.1 in
      elim s.0 [ none ↦ rest | some e ↦ (some (record { id = m.id; cause = e }), s.1) ]

  unfoldable pub start_all : Registry H → Option (StartError E) × Registry H
  start_all r = let s = start_each r.started r.bus in (s.0, record r { bus = s.1 })
