-- ===== src/Kernel/Tests.antt =====
-- Runs of the bus, of a built handler and of a registry, and the theorems at them.
use grimlocker_public.Base.{
  ◌≡◌, refl, false, ℕ, ◌+◌, List, [], ◌∷◌, ◌++◌, Option, none, some, ◌==◌, if◌then◌else◌, ◌↔◌,
  replicate, set, Bool, true, ltb, ◌&&◌, ◌||◌, arith,
}
use grimlocker_public.Base.Int.{pos}
use grimlocker_public.Wire.{IsBytes}
use grimlocker_public.Kernel.Uuid.{new_id}
use grimlocker_public.Kernel.Uuid.Unique.{random_bits, new_id_iff}
use grimlocker_public.Kernel.Uuid.Shape.{IsUuid4, new_id-IsUuid4}
use grimlocker_public.Gql.Opcodes.{codes}
use grimlocker_public.Kernel.Event.{Event}
use grimlocker_public.Kernel.Bus.{
  Module, Bus, new_bus, dispatch, begin_request, ready_results, new_event, reply_event,
}
use grimlocker_public.Kernel.Bus.Calls.{
  run, registers, subscribes, opens_gate, dispatches, shuts_down, Call,
}
use grimlocker_public.Kernel.Bus.View.{view_run, no_view}
use grimlocker_public.Kernel.Bus.Delivery.{deliveries, dispatch-run}
use grimlocker_public.Kernel.Bus.Cancelling.{was_shut_down}
use grimlocker_public.Kernel.Bus.Waiting.{request_id, first_reply, may_return}
use grimlocker_public.Kernel.Bus.Replies.{ready_results-run}
use grimlocker_public.Kernel.Handler.{Handler, panics, own_line, new_builder, build}
use grimlocker_public.Kernel.Handler.Layers.{
  Layer, recovery_layer, logging_layer, add_layers, ends_as, reports, build_lem,
}
use grimlocker_public.Kernel.Registry.{start_each, start_all}
use grimlocker_public.Kernel.Registry.Startup.{firsts, all_added, start_all-add_all}

-- Handlers are numbered, and the channels are in capitals already.
abbrev same_case : List ℕ → List ℕ
same_case s = s

abbrev crypto_module : Module ℕ
crypto_module = record { id = codes "crypto"; channels = codes "CRYPTO" ∷ []; handle = 1 }

abbrev calls : List (Call ℕ)
calls =
    registers crypto_module
    ∷ subscribes (codes "s1") (codes "CRYPTO.ENCRYPT") (some 2)
    ∷ opens_gate
    ∷ []

abbrev encrypt : Event
encrypt = new_event (codes "e1") 4 (codes "api") (codes "CRYPTO.ENCRYPT") []

dispatch-run_example :
    (dispatch 5 encrypt (run same_case (new_bus same_case (codes "CRYPTO" ∷ [])) calls)).1
    ≡ deliveries same_case (codes "CRYPTO" ∷ []) (view_run no_view calls) 5 encrypt
dispatch-run_example = dispatch-run same_case (codes "CRYPTO" ∷ []) calls 5 encrypt

-- A reply to the request, and the request's own dispatch before it.
abbrev answered : List (Call ℕ)
answered =
    dispatches 6 encrypt
    ∷ dispatches 7 (reply_event (codes "e2") 7 (codes "crypto") (codes "CRYPTO.RESULT") encrypt [])
    ∷ shuts_down
    ∷ []

encrypt_named : ¬ (request_id (codes "f1") encrypt ≡ [])
unfolding new_event
encrypt_named e = absurd cc

ready_results-run_example :
    let b = run same_case (new_bus same_case []) calls in
    let req = begin_request (codes "f1") encrypt b in
    ready_results req.1 false (run same_case req.2 answered)
    ≡ may_return
        (first_reply (request_id (codes "f1") encrypt) answered)
        false
        (was_shut_down calls || was_shut_down answered)
ready_results-run_example =
    ready_results-run same_case [] calls answered (codes "f1") encrypt false encrypt_named
      (tt, (tt, (tt, tt)))

abbrev clocks : List ℕ
clocks = 1 ∷ 2 ∷ 3 ∷ 4 ∷ 5 ∷ 6 ∷ 7 ∷ 8 ∷ 9 ∷ []

encrypt-ttl : encrypt.ttl ≡ pos 8
unfolding new_event
encrypt-ttl = refl

-- A handler that panics with the value 13.
abbrev panicking : Handler ℕ ℕ ℕ
panicking e now = record { finished = now + 2; lines = own_line 1 ∷ []; ending = panics 13 }

abbrev layers : List Layer
layers = recovery_layer (codes "[m]") ∷ logging_layer (codes "[m]") ∷ []

build_lem_example :
    let r = panicking encrypt 5 in
    build (add_layers (new_builder panicking) layers) encrypt 5 ≡ record {
      finished = r.finished;
      lines = r.lines ++ reports layers encrypt.event_type 2 r.ending;
      ending = ends_as layers encrypt.event_type r.ending;
    }
build_lem_example = build_lem layers panicking encrypt 5

abbrev second_crypto : Module ℕ
second_crypto = record { id = codes "crypto"; channels = []; handle = 3 }

abbrev storage_module : Module ℕ
storage_module = record { id = codes "storage"; channels = codes "STORAGE" ∷ []; handle = 4 }

abbrev tool_module : Module ℕ
tool_module = record { id = codes "tool"; channels = codes "TOOL" ∷ []; handle = 5 }

-- Starting the storage module fails with 9.
abbrev start : Module ℕ → Bus ℕ → Option ℕ × Bus ℕ
start m b = (if m.handle == 4 then some 9 else none, b)

abbrev added : List (Module ℕ)
added = crypto_module ∷ second_crypto ∷ storage_module ∷ tool_module ∷ []

-- The second module of the same name is not added.
firsts-added : firsts [] added ≡ (crypto_module ∷ []) ++ storage_module ∷ tool_module ∷ []
unfolding firsts
firsts-added = refl

crypto_starts : (b : Bus ℕ) → start_each start (crypto_module ∷ []) b ≡ (none, b)
unfolding start_each
crypto_starts b = refl

start_all-add_all_example :
    let r = all_added same_case [] added in
    start_all start r ≡ (
      some (record { id = codes "storage"; cause = 9 }),
      record { bus = r.bus; started = crypto_module ∷ storage_module ∷ tool_module ∷ [] },
    )
start_all-add_all_example =
    let b = (all_added same_case [] added).bus in
    start_all-add_all start same_case [] added (crypto_module ∷ []) (tool_module ∷ [])
      storage_module 9 b b firsts-added (crypto_starts b) refl

abbrev all_small : List ℕ → Bool
all_small [] = true
all_small (b ∷ bs) = ltb b 256 && all_small bs

all_small-IsBytes : (bs : List ℕ) → all_small bs ≡ true → IsBytes bs
all_small-IsBytes [] h = tt
all_small-IsBytes (b ∷ bs) h = (ground (arith, h), all_small-IsBytes bs (ground (arith, h)))

-- Two arrays of random bytes, which differ only in bits that the version takes.
abbrev all_ones : List ℕ
all_ones = replicate 16 255

abbrev version_differs : List ℕ
version_differs = set all_ones 6 31

all_ones-IsBytes : IsBytes all_ones
all_ones-IsBytes = all_small-IsBytes all_ones refl

version_differs-IsBytes : IsBytes version_differs
version_differs-IsBytes = all_small-IsBytes version_differs refl

new_id_iff_example :
    (new_id all_ones ≡ new_id version_differs)
    ↔ (random_bits all_ones ≡ random_bits version_differs)
new_id_iff_example =
    new_id_iff all_ones version_differs refl refl all_ones-IsBytes version_differs-IsBytes

new_id-IsUuid4_example : IsUuid4 (new_id all_ones)
new_id-IsUuid4_example = new_id-IsUuid4 all_ones refl all_ones-IsBytes
