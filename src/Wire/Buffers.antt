-- ===== src/Wire/Buffers.antt =====
-- Filling a buffer from the left: a cursor is a buffer and the offset of the next write.
use mathlib.Core.List.{append_assoc, append-nil}
use grimlocker_public.Base.{
  ℕ, ◌+◌, ◌-◌, ◌≤◌, ◌≡◌, sym, ap, ap₂, ◌∙◌, List, [], ◌++◌, Option, some, arith, length, drop,
  drop_all, take_all, drop-drop, drop-length_append, take-length_append, length-append, length-drop,
  replicate, length-replicate, if◌then◌else◌,
}
use grimlocker_public.Base.Maybe.{◌>>=◌}
use grimlocker_public.Wire.{write_at, put, copy_at}

pub record Cursor : Type 0 where
  pub buf : List ℕ
  pub off : ℕ

abbrev pub Step : Type 0
Step = Cursor → Option Cursor

-- `f` writes exactly `bs` at the cursor, whenever there is room for it.
pub record Writes (f : Step) (bs : List ℕ) : Type 0 where
  pub run :
      (pre t : List ℕ)
      → length bs ≤ length t
      → f (record { buf = pre ++ t; off = length pre })
        ≡ some (record { buf = (pre ++ bs) ++ drop (length bs) t; off = length (pre ++ bs) })

drop_past : (pre t : List ℕ) (n : ℕ) → drop (length pre + n) (pre ++ t) ≡ drop n t
drop_past pre t n =
    sym (drop-drop (length pre) n (pre ++ t)) ∙ ap (drop n) (drop-length_append pre t)

pub write_at-append :
    (pre t bs : List ℕ) → write_at (pre ++ t) (length pre) bs ≡ (pre ++ bs) ++ drop (length bs) t
write_at-append pre t bs =
    rw (take-length_append pre t, drop_past pre t (length bs))
      (sym (append_assoc pre bs (drop (length bs) t)))

pub put_lem :
    (pre t bs : List ℕ)
    → length bs ≤ length t
    → put (pre ++ t) (length pre) bs ≡ some ((pre ++ bs) ++ drop (length bs) t)
unfolding put
put_lem pre t bs h = rw (write_at-append pre t bs) (ground (arith, length-append pre t))

pub copy_at_lem :
    (pre t s : List ℕ)
    → length s ≤ length t
    → copy_at (pre ++ t) (length pre) s ≡ some ((pre ++ s) ++ drop (length s) t)
unfolding copy_at
copy_at_lem pre t s h =
    rw
      (
        take_all (length (pre ++ t) - length pre) s (omega (arith, length-append pre t)),
        write_at-append pre t s,
      )
      (ground (arith, length-append pre t))

-- One write after another.
infixr 6 ◌then◌
abbrev pub ◌then◌ : Step → Step → Step
◌then◌ f g c = f c >>= g

then_run :
    (f g : Step) (a b : List ℕ)
    → Writes f a
    → Writes g b
    → (pre t : List ℕ) → length (a ++ b) ≤ length t
    → (f then g) (record { buf = pre ++ t; off = length pre })
      ≡ some (record {
        buf = (pre ++ (a ++ b)) ++ drop (length (a ++ b)) t;
        off = length (pre ++ (a ++ b));
      })
then_run f g a b wf wg pre t h =
    rw
      (
        wf.run pre t (omega (arith, length-append a b)),
        wg.run (pre ++ a) (drop (length a) t)
            (omega (arith, length-append a b, length-drop (length a) t)),
      )
      (ap₂ (λ x y. some (record { buf = x; off = y })) bytes (ap length (append_assoc pre a b)))
  where
    bytes :
        ((pre ++ a) ++ b) ++ drop (length b) (drop (length a) t)
        ≡ (pre ++ (a ++ b)) ++ drop (length (a ++ b)) t
    bytes =
        ap₂ (λ x y. x ++ y) (append_assoc pre a b)
          (drop-drop (length a) (length b) t ∙ ap (λ n. drop n t) (sym (length-append a b)))

pub Writes-then : {f g : Step} {a b : List ℕ} → Writes f a → Writes g b → Writes (f then g) (a ++ b)
Writes-then {f} {g} {a} {b} wf wg = record { run = then_run f g a b wf wg }

-- A buffer of the right size is filled exactly.
pub Writes-fill :
    (f : Step) (bs : List ℕ) (n : ℕ)
    → Writes f bs
    → n ≡ length bs
    → f (record { buf = replicate n 0; off = 0 }) ≡ some (record { buf = bs; off = length bs })
Writes-fill f bs n w e =
    w.run [] zeros room
    ∙ ap (λ x. some (record { buf = x; off = length bs }))
        (ap (λ x. bs ++ x) (drop_all (length bs) zeros exact) ∙ append-nil bs)
  where
    zeros : List ℕ
    zeros = replicate n 0

    room : length bs ≤ length zeros
    room = omega (arith, length-replicate {A = ℕ} n 0)

    exact : length zeros ≤ length bs
    exact = omega (arith, length-replicate {A = ℕ} n 0)

-- `put(buf[off:], bytes); off += n`.
unfoldable pub put_step : List ℕ → Step
put_step bs c = put c.buf c.off bs >>= λ b. some (record { buf = b; off = c.off + length bs })

pub Writes-put_step : (bs : List ℕ) → Writes (put_step bs) bs
unfolding put_step
Writes-put_step bs = record {
  run = λ pre t h. rw (put_lem pre t bs h) (
      ap (λ n. some (record { buf = (pre ++ bs) ++ drop (length bs) t; off = n }))
        (sym (length-append pre bs)));
}

-- `copy(buf[off:], s); off += len(s)`.
unfoldable pub copy_step : List ℕ → Step
copy_step s c = copy_at c.buf c.off s >>= λ b. some (record { buf = b; off = c.off + length s })

pub Writes-copy_step : (s : List ℕ) → Writes (copy_step s) s
unfolding copy_step
Writes-copy_step s = record {
  run = λ pre t h. rw (copy_at_lem pre t s h) (
      ap (λ n. some (record { buf = (pre ++ s) ++ drop (length s) t; off = n }))
        (sym (length-append pre s)));
}

-- A step that writes nothing.
pub Writes-nothing : Writes (λ c. some c) []
Writes-nothing = record { run = λ pre t h. rw (append-nil pre) }
