-- ===== src/Kernel/Handler.antt =====
-- engine/kernel/handler.go. A handler gets an event and the time, and says when it ended, what has
-- been written to the log, and whether it returned or panicked with a value of type `V`; `E` are
-- the errors of the handlers and `L` what they log themselves. Printing the values is not modelled.
pub mod Layers
use grimlocker_public.Base.{
  ℕ, zero, suc, ◌-◌, Bool, true, false, List, [], ◌∷◌, ◌++◌, Option, none, some, length, get_or,
}
use grimlocker_public.Kernel.Event.{Event, EventType}

-- `panicked` is handlerPanicError.
pub data HandlerError (E V : Type 0) : Type 0 where
  failed : E → HandlerError E V
  panicked : EventType → V → HandlerError E V

pub data Ending (E V : Type 0) : Type 0 where
  returns : Option (HandlerError E V) → Ending E V
  panics : V → Ending E V

-- The lines of the log, each with its prefix.
pub data Line (E V L : Type 0) : Type 0 where
  own_line : L → Line E V L
  panic_line : List ℕ → EventType → V → Line E V L
  error_line : List ℕ → EventType → ℕ → HandlerError E V → Line E V L
  ok_line : List ℕ → EventType → ℕ → Line E V L
  metric_line : List ℕ → List ℕ → Bool → ℕ → Line E V L

pub record Ran (E V L : Type 0) : Type 0 where
  pub finished : ℕ
  pub lines : List (Line E V L)
  pub ending : Ending E V

abbrev pub Handler : Type 0 → Type 0 → Type 0 → Type 0
Handler E V L = Event → ℕ → Ran E V L

pub record HandlerBuilder (E V L : Type 0) : Type 0 where
  pub base : Handler E V L
  pub decorators : List (Handler E V L → Handler E V L)

module _ {E V L : Type 0} where
  -- NewHandlerBuilder
  unfoldable pub new_builder : Handler E V L → HandlerBuilder E V L
  new_builder h = record { base = h; decorators = [] }

  -- The function that WithRecovery adds.
  unfoldable pub recover_panic : List ℕ → Handler E V L → Handler E V L
  recover_panic prefix next e now =
      let r = next e now in
      elim r.ending [
        | returns _ ↦ r
        | panics v ↦ record r {
          lines = r.lines ++ panic_line prefix e.event_type v ∷ [];
          ending = returns (some (panicked e.event_type v));
        }
      ]

  -- The function that WithLogging adds.
  unfoldable pub log_result : List ℕ → Handler E V L → Handler E V L
  log_result prefix next e now =
      let r = next e now in
      let elapsed = r.finished - now in
      elim r.ending [
        | panics _ ↦ r
        | returns res ↦ record r {
          lines =
              r.lines
              ++ (elim res [
                | some err ↦ error_line prefix e.event_type elapsed err
                | none ↦ ok_line prefix e.event_type elapsed
              ])
                ∷ [];
        }
      ]

  -- The function that WithMetrics adds; the Boolean is the status `error`.
  unfoldable pub measure : List ℕ → List ℕ → Handler E V L → Handler E V L
  measure prefix label next e now =
      let r = next e now in
      elim r.ending [
        | panics _ ↦ r
        | returns res ↦ record r {
          lines =
              r.lines
              ++ metric_line prefix label (elim res [ none ↦ false | some _ ↦ true ])
                  (r.finished - now)
                ∷ [];
        }
      ]

  abbrev decorate : HandlerBuilder E V L → (Handler E V L → Handler E V L) → HandlerBuilder E V L
  decorate b d = record b { decorators = b.decorators ++ d ∷ [] }

  unfoldable pub with_recovery : List ℕ → HandlerBuilder E V L → HandlerBuilder E V L
  with_recovery prefix b = decorate b (recover_panic prefix)

  unfoldable pub with_logging : List ℕ → HandlerBuilder E V L → HandlerBuilder E V L
  with_logging prefix b = decorate b (log_result prefix)

  unfoldable pub with_metrics : List ℕ → List ℕ → HandlerBuilder E V L → HandlerBuilder E V L
  with_metrics prefix label b = decorate b (measure prefix label)

  -- The loop of Build from the index below `n` down to 0.
  unfoldable pub build_loop :
      ℕ → List (Handler E V L → Handler E V L) → Handler E V L → Handler E V L
  build_loop zero ds h = h
  build_loop (suc i) ds h = build_loop i ds (get_or ds i (λ k. k) h)

  unfoldable pub build : HandlerBuilder E V L → Handler E V L
  build b = build_loop (length b.decorators) b.decorators b.base

  -- The functions WithRecovery and WithLogging of the package.
  unfoldable pub recovering : List ℕ → Handler E V L → Handler E V L
  recovering prefix h = build (with_recovery prefix (new_builder h))

  unfoldable pub logging : List ℕ → Handler E V L → Handler E V L
  logging prefix h = build (with_logging prefix (new_builder h))
