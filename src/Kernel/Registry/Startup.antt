-- ===== src/Kernel/Registry/Startup.antt =====
-- engine/kernel/registry.go: which modules are started, in which order.
use grimlocker_public.Base.{
  ◌≡◌, refl, sym, ap, ◌∙◌, Bool, true, false, ◌||◌, List, [], ◌∷◌, ◌++◌, ℕ, Option, none, some,
  arith, Option-cases, Bool-cases, inl, inr, bytes_eq, if◌then◌else◌,
}
use mathlib.Core.List.{append_assoc, append-nil}
use grimlocker_public.Base.Dict.{Key, lookup, lookup-insert}
use grimlocker_public.Kernel.Bus.{Bus, Module, register, new_bus}
use grimlocker_public.Kernel.Registry.{
  Registry, StartError, new_registry, add, start_each, start_all,
}

abbrev pub seen_in : Key → List Key → Bool
seen_in k [] = false
seen_in k (j ∷ ks) = bytes_eq j k || seen_in k ks

module _ {H : Type 0} where
  -- The modules whose identifier comes for the first time.
  unfoldable pub firsts : List Key → List (Module H) → List (Module H)
  firsts seen [] = []
  firsts seen (m ∷ ms) =
      let rest = firsts seen ms in
      let others = firsts (m.id ∷ seen) ms in if seen_in m.id seen then rest else m ∷ others

  -- Adding a list of modules, whatever each Add returns.
  unfoldable pub add_all : (List ℕ → List ℕ) → List (Module H) → Registry H → Registry H
  add_all to_upper [] r = r
  add_all to_upper (m ∷ ms) r = add_all to_upper ms (add to_upper m r).1

  abbrev pub all_added : (List ℕ → List ℕ) → List Key → List (Module H) → Registry H
  all_added to_upper gated ms = add_all to_upper ms (new_registry (new_bus to_upper gated))

module _ {H : Type 0} (to_upper : List ℕ → List ℕ) where
  -- The bus has modules of these identifiers.
  record Has (seen : List Key) (b : Bus H) : Type 0 where
    has_none : (k : Key) → seen_in k seen ≡ false → lookup k b.modules ≡ none
    has_some : (k : Key) → seen_in k seen ≡ true → (m : Module H) × lookup k b.modules ≡ some m

  add-known :
      (m : Module H) (r : Registry H) (n : Module H)
      → lookup m.id r.bus.modules ≡ some n
      → (add to_upper m r).1 ≡ r
  unfolding add register
  add-known m r n taken = rw (add, register, taken) refl

  add-started :
      (m : Module H) (r : Registry H)
      → lookup m.id r.bus.modules ≡ none
      → (add to_upper m r).1.started ≡ r.started ++ m ∷ []
  unfolding add register
  add-started m r free = rw (add, register, free) refl

  add-Has :
      (seen : List Key) (m : Module H) (r : Registry H)
      → lookup m.id r.bus.modules ≡ none
      → Has seen r.bus
      → Has (m.id ∷ seen) (add to_upper m r).1.bus
  unfolding add register
  add-Has seen m r free h =
      rw (add, register, free)
        (record {
          has_none = λ k e. ground (arith, lookup-insert m.id k m r.bus.modules, h.has_none k);
          has_some = λ k e. elim (Bool-cases (bytes_eq m.id k)) [
            | inl same ↦ (m, lookup-insert m.id k m r.bus.modules ∙ rw same refl)
            | inr other ↦
                let (n, found) = h.has_some k (ground (arith, other)) in
                (n, lookup-insert m.id k m r.bus.modules ∙ rw other found)
          ];
        })

  started-add_all :
      (ms : List (Module H)) (seen : List Key) (r : Registry H)
      → Has seen r.bus
      → (add_all to_upper ms r).started ≡ r.started ++ firsts seen ms
  unfolding add_all firsts
  started-add_all [] seen r h = sym (append-nil r.started)
  started-add_all (m ∷ ms) seen r h = elim (Bool-cases (seen_in m.id seen)) [
    | inl known ↦
        let (n, taken) = h.has_some m.id known in
        let skips : firsts seen (m ∷ ms) ≡ firsts seen ms = rw (known, firsts) refl in
        ap (λ q. (add_all to_upper ms q).started) (add-known m r n taken)
        ∙ started-add_all ms seen r h
        ∙ ap (λ xs. r.started ++ xs) (sym skips)
    | inr fresh ↦
        let free = h.has_none m.id fresh in
        rw (firsts, fresh)
          (started-add_all ms (m.id ∷ seen) (add to_upper m r).1 (add-Has seen m r free h)
            ∙ ap (λ xs. xs ++ firsts (m.id ∷ seen) ms) (add-started m r free)
            ∙ append_assoc r.started (m ∷ []) (firsts (m.id ∷ seen) ms))
  ]

  new_bus-Has : (gated : List Key) → Has [] (new_bus to_upper gated)
  unfolding new_bus
  new_bus-Has gated = record { has_none = λ k e. refl; has_some = λ k e. absurd (cc) }

module _ {H E : Type 0} (start : Module H → Bus H → Option E × Bus H) where
  start_each_failed :
      (xs ys : List (Module H)) (m : Module H) (e : E) (b b1 b2 : Bus H)
      → start_each start xs b ≡ (none, b1)
      → start m b1 ≡ (some e, b2)
      → start_each start (xs ++ m ∷ ys) b ≡ (some (record { id = m.id; cause = e }), b2)
  unfolding start_each
  start_each_failed [] ys m e b b1 b2 h k =
      let fails : start m b ≡ (some e, b2) = ap (λ p. start m p.1) h ∙ k in
      rw (start_each, fails) (ap (λ q. (some (record { id = m.id; cause = e }), q.1)) fails)
  start_each_failed (x ∷ xs) ys m e b b1 b2 h k = elim (Option-cases (start x b).0) [
    | inl well ↦
        let whole : start_each start (x ∷ xs) b ≡ start_each start xs (start x b).1 =
          rw (start_each, well) refl in
        rw (start_each, well) (start_each_failed xs ys m e (start x b).1 b1 b2 (sym whole ∙ h) k)
    | inr (f, fails) ↦
        let whole : (start_each start (x ∷ xs) b).0 ≡ some (record { id = x.id; cause = f }) =
          rw (start_each, fails) refl in
        let clash : ◌≡◌ {A = Option (StartError E)} none (some (record { id = x.id; cause = f })) =
          sym (ap (λ p. p.0) h) ∙ whole in
        absurd cc
  ]

  -- Modules are added to a registry over a new bus, and `firsts` are those whose identifier comes
  -- for the first time: when StartAll starts `xs` of them without an error and the next one, `m`,
  -- fails, it returns the error of `m` with its identifier and starts none of the others.
  pub start_all-add_all :
      (to_upper : List ℕ → List ℕ) (gated : List Key) (ms xs ys : List (Module H)) (m : Module H)
      (e : E) (b1 b2 : Bus H)
      → firsts [] ms ≡ xs ++ m ∷ ys
      → start_each start xs (all_added to_upper gated ms).bus ≡ (none, b1)
      → start m b1 ≡ (some e, b2)
      → start_all start (all_added to_upper gated ms)
        ≡ (some (record { id = m.id; cause = e }), record { bus = b2; started = xs ++ m ∷ ys })
  unfolding start_all new_registry
  start_all-add_all to_upper gated ms xs ys m e b1 b2 split h k =
      let r0 = new_registry (new_bus to_upper gated) in
      let r = add_all to_upper ms r0 in
      let added : r.started ≡ xs ++ m ∷ ys =
        started-add_all to_upper ms [] r0 (new_bus-Has to_upper gated) ∙ split in
      rw (start_all, added, start_each_failed xs ys m e r.bus b1 b2 h k) refl
