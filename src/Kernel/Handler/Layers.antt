-- ===== src/Kernel/Handler/Layers.antt =====
-- What a handler does that engine/kernel/handler.go builds from any chain of decorators.
use grimlocker_public.Base.{
  ◌≡◌, refl, sym, ap, ◌∙◌, ℕ, zero, suc, ◌-◌, Bool, true, false, if◌then◌else◌, List, [], ◌∷◌, ◌++◌,
  none, some, ap₂, length, get_or, map, arith,
}
use mathlib.Core.List.{append_assoc, append-nil}
use grimlocker_public.Kernel.Event.{Event, EventType}
use grimlocker_public.Kernel.Handler.{
  panicked, Ending, returns, panics, Line, panic_line, error_line, ok_line, metric_line, Ran,
  Handler, HandlerBuilder, new_builder, recover_panic, log_result, measure, with_recovery,
  with_logging, with_metrics, build_loop, build,
}

-- The calls of a chain.
pub data Layer : Type 0 where
  recovery_layer : List ℕ → Layer
  logging_layer : List ℕ → Layer
  metrics_layer : List ℕ → List ℕ → Layer

module _ {E V L : Type 0} where
  abbrev pub add_layer : HandlerBuilder E V L → Layer → HandlerBuilder E V L
  add_layer b (recovery_layer p) = with_recovery p b
  add_layer b (logging_layer p) = with_logging p b
  add_layer b (metrics_layer p l) = with_metrics p l b

  unfoldable pub add_layers : HandlerBuilder E V L → List Layer → HandlerBuilder E V L
  add_layers b [] = b
  add_layers b (l ∷ ls) = add_layers (add_layer b l) ls

-- Whether a chain has a call of WithRecovery.
abbrev pub recovers : List Layer → Bool
recovers [] = false
recovers (recovery_layer _ ∷ ls) = true
recovers (_ ∷ ls) = recovers ls

module _ {E V : Type 0} where
  -- What a caller sees of a recovered handler.
  abbrev pub recovered : EventType → Ending E V → Ending E V
  recovered t (returns res) = returns res
  recovered t (panics v) = returns (some (panicked t v))

  -- How a handler ends under the layers of a chain, the first one outermost.
  abbrev pub ends_as : List Layer → EventType → Ending E V → Ending E V
  ends_as ls t o = if recovers ls then recovered t o else o

  ends_as-cons :
      (l : Layer) (ls : List Layer) (t : EventType) (o : Ending E V)
      → ends_as (l ∷ []) t (ends_as ls t o) ≡ ends_as (l ∷ ls) t o
  ends_as-cons (recovery_layer p) ls t (returns res) = ground arith
  ends_as-cons (recovery_layer p) ls t (panics v) = ground arith
  ends_as-cons (logging_layer p) ls t o = refl
  ends_as-cons (metrics_layer p l) ls t o = refl

module _ {E V L : Type 0} where
  -- What a layer adds to the log.
  abbrev pub report : Layer → EventType → ℕ → Ending E V → List (Line E V L)
  report (recovery_layer p) t d (returns res) = []
  report (recovery_layer p) t d (panics v) = panic_line p t v ∷ []
  report (logging_layer p) t d (returns none) = ok_line p t d ∷ []
  report (logging_layer p) t d (returns (some e)) = error_line p t d e ∷ []
  report (logging_layer p) t d (panics v) = []
  report (metrics_layer p l) t d (returns none) = metric_line p l false d ∷ []
  report (metrics_layer p l) t d (returns (some e)) = metric_line p l true d ∷ []
  report (metrics_layer p l) t d (panics v) = []

  -- The innermost layer, which is the last one, reports first.
  abbrev pub reports : List Layer → EventType → ℕ → Ending E V → List (Line E V L)
  reports [] t d o = []
  reports (l ∷ ls) t d o = reports ls t d o ++ report l t d (ends_as ls t o)

  abbrev wrap : Layer → Handler E V L → Handler E V L
  wrap (recovery_layer p) = recover_panic p
  wrap (logging_layer p) = log_result p
  wrap (metrics_layer p l) = measure p l

  abbrev wraps : List Layer → Handler E V L → Handler E V L
  wraps [] h = h
  wraps (l ∷ ls) h = wrap l (wraps ls h)

  build_loop-suc :
      (n : ℕ) (d : Handler E V L → Handler E V L) (ds : List (Handler E V L → Handler E V L))
      (h : Handler E V L)
      → build_loop (suc n) (d ∷ ds) h ≡ d (build_loop n ds h)
  unfolding build_loop
  build_loop-suc zero d ds h = refl
  build_loop-suc (suc n) d ds h = build_loop-suc n d ds (get_or ds n (λ k. k) h)

  build_loop-map :
      (ls : List Layer) (h : Handler E V L)
      → build_loop (length (map wrap ls)) (map wrap ls) h ≡ wraps ls h
  unfolding build_loop
  build_loop-map [] h = refl
  build_loop-map (l ∷ ls) h =
      build_loop-suc (length (map wrap ls)) (wrap l) (map wrap ls) h
      ∙ ap (wrap l) (build_loop-map ls h)

  decorators-add_layers :
      (ls : List Layer) (b : HandlerBuilder E V L)
      → (add_layers b ls).decorators ≡ b.decorators ++ map wrap ls
  unfolding add_layers with_recovery with_logging with_metrics
  decorators-add_layers [] b = sym (append-nil b.decorators)
  decorators-add_layers (recovery_layer p ∷ ls) b =
      decorators-add_layers ls (with_recovery p b)
      ∙ append_assoc b.decorators (recover_panic p ∷ []) (map wrap ls)
  decorators-add_layers (logging_layer p ∷ ls) b =
      decorators-add_layers ls (with_logging p b)
      ∙ append_assoc b.decorators (log_result p ∷ []) (map wrap ls)
  decorators-add_layers (metrics_layer p l ∷ ls) b =
      decorators-add_layers ls (with_metrics p l b)
      ∙ append_assoc b.decorators (measure p l ∷ []) (map wrap ls)

  base-add_layers : (ls : List Layer) (b : HandlerBuilder E V L) → (add_layers b ls).base ≡ b.base
  unfolding add_layers with_recovery with_logging with_metrics
  base-add_layers [] b = refl
  base-add_layers (recovery_layer p ∷ ls) b = base-add_layers ls (with_recovery p b)
  base-add_layers (logging_layer p ∷ ls) b = base-add_layers ls (with_logging p b)
  base-add_layers (metrics_layer p l ∷ ls) b = base-add_layers ls (with_metrics p l b)

  build-add_layers :
      (ls : List Layer) (h : Handler E V L) → build (add_layers (new_builder h) ls) ≡ wraps ls h
  unfolding build new_builder
  build-add_layers ls h =
      ap (λ ds. build_loop (length ds) ds (add_layers (new_builder h) ls).base)
        (decorators-add_layers ls (new_builder h))
      ∙ ap (build_loop (length (map wrap ls)) (map wrap ls)) (base-add_layers ls (new_builder h))
      ∙ build_loop-map ls h

  -- One layer over a handler that ran.
  abbrev under : Layer → Event → ℕ → Ran E V L → Ran E V L
  under l e now r = record r {
    lines = r.lines ++ report l e.event_type (r.finished - now) r.ending;
    ending = ends_as (l ∷ []) e.event_type r.ending;
  }

  wrap-under :
      (l : Layer) (h : Handler E V L) (e : Event) (now : ℕ)
      → wrap l h e now ≡ under l e now (h e now)
  unfolding recover_panic log_result measure
  wrap-under (recovery_layer p) h e now = ground (arith, append-nil (h e now).lines)
  wrap-under (logging_layer p) h e now = ground (arith, append-nil (h e now).lines)
  wrap-under (metrics_layer p l) h e now = ground (arith, append-nil (h e now).lines)

  wraps_lem :
      (ls : List Layer) (h : Handler E V L) (e : Event) (now : ℕ)
      → let r = h e now in
        wraps ls h e now ≡ record r {
          lines = r.lines ++ reports ls e.event_type (r.finished - now) r.ending;
          ending = ends_as ls e.event_type r.ending;
        }
  wraps_lem [] h e now = ground (arith, append-nil (h e now).lines)
  wraps_lem (l ∷ ls) h e now =
      let r = h e now in
      let t = e.event_type in
      let o = ends_as ls t r.ending in
      let d = r.finished - now in
      wrap-under l (wraps ls h) e now
      ∙ ap (under l e now) (wraps_lem ls h e now)
      ∙ ap₂ (λ xs end. record r { lines = xs; ending = end })
          (append_assoc r.lines (reports ls t d r.ending) (report l t d o))
          (ends_as-cons l ls t r.ending)

  -- Any chain of WithRecovery, WithLogging and WithMetrics calls on a new builder: the built handler
  -- takes the time of the base, ends like it, but returns the error of a panic if the chain has a
  -- recovery, and adds to the log of the base the reports of the layers, the last call first, each
  -- by the ending that reached it.
  pub build_lem :
      (ls : List Layer) (h : Handler E V L) (e : Event) (now : ℕ)
      → let r = h e now in
        build (add_layers (new_builder h) ls) e now ≡ record {
          finished = r.finished;
          lines = r.lines ++ reports ls e.event_type (r.finished - now) r.ending;
          ending = ends_as ls e.event_type r.ending;
        }
  build_lem ls h e now = ap (λ g. g e now) (build-add_layers ls h) ∙ wraps_lem ls h e now
