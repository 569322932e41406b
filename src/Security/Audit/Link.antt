-- ===== src/Security/Audit/Link.antt =====
-- One event of the chain of engine/security/audit.go, and how many a log keeps, described without its
-- code.
use grimlocker_public.Base.{
  ℕ, zero, suc, ◌/◌, ◌%◌, ◌^◌, ◌==◌, if◌then◌else◌, Bool-cases, inl, inr, ◌≡◌, refl, ap, ◌∙◌, List,
  [], ◌∷◌, ◌++◌, arith,
}
use grimlocker_public.Base.Int.{ℤ, pos, negsuc, pos_part, leb_ℤ}
use grimlocker_public.Security.Audit.{
  of_last_hash, SecurityEvent, capacity_or_default, be64, digest_input, stamped, sealed,
}

-- A number as eight bytes in network order.
abbrev pub eight_bytes : ℕ → List ℕ
eight_bytes v =
    (v / 2 ^ 56 % 256)
    ∷ (v / 2 ^ 48 % 256)
    ∷ (v / 2 ^ 40 % 256)
    ∷ (v / 2 ^ 32 % 256)
    ∷ (v / 2 ^ 24 % 256)
    ∷ (v / 2 ^ 16 % 256)
    ∷ (v / 2 ^ 8 % 256)
    ∷ (v % 256)
    ∷ []

-- The time of an event, which is that of the call if it had none.
abbrev pub time_or : ℕ → ℕ → ℕ
time_or now zero = now
time_or now (suc t) = suc t

-- An event in a chain after the hash `last`: what it says, the hash of `last` and all that it says,
-- and a reference to the log's array.
unfoldable pub link : (List ℕ → List ℕ) → ℕ → List ℕ → SecurityEvent → SecurityEvent
link sha256 now last e =
    let time = time_or now e.timestamp in
    record {
      timestamp = time;
      level = e.level;
      module_name = e.module_name;
      message = e.message;
      subject_id = e.subject_id;
      prev_hash = of_last_hash;
      hash = sha256 (
          last
          ++ (eight_bytes time ++ (e.level ++ (e.module_name ++ (e.message ++ e.subject_id)))));
    }

be64-eight_bytes : (v : ℕ) → be64 v ≡ eight_bytes v
be64-eight_bytes v = ground arith

time_or_lem : (now t : ℕ) → (if t == 0 then now else t) ≡ time_or now t
time_or_lem now zero = refl
time_or_lem now (suc t) = ground arith

stamped-time_or :
    (now : ℕ) (e : SecurityEvent) → stamped now e ≡ record e { timestamp = time_or now e.timestamp }
stamped-time_or now e =
    let time = time_or_lem now e.timestamp in
    elim (Bool-cases (e.timestamp == 0)) [
      | inl unset ↦
          let now_set : now ≡ time_or now e.timestamp = ground arith in
          rw unset (ap (λ t. record e { timestamp = t }) now_set)
      | inr is_set ↦
          let kept : e.timestamp ≡ time_or now e.timestamp = ground arith in
          rw is_set (ap (λ t. record e { timestamp = t }) kept)
    ]

-- What Append stores is a link of the chain.
pub sealed-link :
    (sha256 : List ℕ → List ℕ) (now : ℕ) (last : List ℕ) (e : SecurityEvent)
    → sealed sha256 now last e ≡ link sha256 now last e
unfolding sealed link digest_input
sealed-link sha256 now last e =
    let time = time_or now e.timestamp in
    let rest = e.level ++ (e.module_name ++ (e.message ++ e.subject_id)) in
    ap
      (λ (x : SecurityEvent). record x {
        prev_hash = of_last_hash;
        hash = sha256 (digest_input last x);
      })
      (stamped-time_or now e)
    ∙ ap
        (λ bs. record e {
          timestamp = time;
          prev_hash = of_last_hash;
          hash = sha256 (last ++ (bs ++ rest));
        })
        (be64-eight_bytes time)

-- How many events a log keeps.
abbrev pub events_kept : ℤ → ℕ
events_kept capacity = if leb_ℤ capacity (pos 0) then 1024 else pos_part capacity

pub capacity-events_kept : (capacity : ℤ) → capacity_or_default capacity ≡ events_kept capacity
capacity-events_kept (pos zero) = refl
capacity-events_kept (pos (suc n)) = ground arith
capacity-events_kept (negsuc n) = ground arith
