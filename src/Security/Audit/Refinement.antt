-- ===== src/Security/Audit/Refinement.antt =====
-- The audit log as a bounded list: what each method does to its contents.
use native.Mathlib.Nat.{add-mod_right}
use grimlocker_public.Base.{
  ℕ, suc, ◌+◌, ◌-◌, ◌%◌, ◌≤◌, ◌≡◌, ◌⊎◌, true, false, refl, sym, ap, ap₂, ◌∙◌, [], ◌∷◌, ◌++◌, some,
  arith, ltb, if◌then◌else◌, length, length-append, drop, set, Bool-cases, inl, inr, ltb→lt, ltb→le,
}
use grimlocker_public.Base.Int.{pos}
use grimlocker_public.Security.Audit.{SecurityEvent, AuditLog, write_slot, slots, recent, drain}
use grimlocker_public.Security.Audit.Newest.{newest, newest_all, drop-append}
use grimlocker_public.Security.Audit.Ring.{
  IsValid, contents, length-slots, drop-slots, slots-start, write_free, write_full,
}

grown : (e : SecurityEvent) (a : AuditLog) → length (contents a ++ e ∷ []) ≡ a.size + 1
grown e a =
    omega (arith, length-append (contents a) (e ∷ []), length-slots a.ring a.cap a.head 0 a.size)

-- Writing an event appends it to the contents, of which the newest `cap` are kept.
pub contents-write_slot :
    (e : SecurityEvent) (a : AuditLog)
    → IsValid a
    → contents (write_slot e a) ≡ newest a.cap (contents a ++ e ∷ [])
unfolding write_slot
contents-write_slot e a v = elim (Bool-cases (ltb a.size a.cap)) [
  | inl free ↦
      let room = ltb→lt _ _ free in
      let none_dropped = newest_all a.cap (contents a ++ e ∷ []) (omega (arith, grown e a)) in
      let one_more : a.size + 1 ≡ suc a.size = omega arith in
      rw (free, none_dropped, one_more) (write_free e a v room)
  | inr full ↦
      let m : ℕ = a.size - 1 in
      let nonempty = v.some_room in
      let at_cap = ltb→le _ _ full in
      let size : suc m ≡ a.size = omega arith in
      let one_dropped : length (contents a ++ e ∷ []) - a.cap ≡ 1 = omega (arith, grown e a) in
      let held = length-slots a.ring a.cap a.head 0 a.size in
      let rest =
        ap (λ k. drop k (contents a ++ e ∷ [])) one_dropped
        ∙ drop-append 1 (contents a) (e ∷ []) (omega arith)
        ∙ ap (λ xs. xs ++ e ∷ []) (drop-slots a.ring a.cap a.head 0 1 a.size (omega arith)) in
      let written =
        ap (λ k. slots (set a.ring ((a.head + a.size) % a.cap) e) a.cap ((a.head + 1) % a.cap) 0 k)
          (sym size)
        ∙ write_full e a m v (sym size) (omega arith) in
      rw full (written ∙ sym rest)
]

-- On a valid log Recent returns the newest `n` events, or all if there are fewer, and Drain all of
-- them, after which the log is valid and holds none.
pub recent-newest :
    (n : ℕ) (a : AuditLog)
    → IsValid a
    → (recent (pos n) a ≡ some (newest n (contents a)))
      × ((drain a).0 ≡ contents a)
      × (contents (drain a).1 ≡ [])
      × IsValid (drain a).1
unfolding recent drain slots
recent-newest n a v = (read (Bool-cases (ltb a.size n)), refl, refl, ground arith)
  where
    k : ℕ
    k = if ltb a.size n then a.size else n

    held : length (contents a) ≡ a.size
    held = length-slots a.ring a.cap a.head 0 a.size

    -- The window of the last `j` slots.
    window :
        (j : ℕ)
        → j ≤ a.size
        → slots a.ring a.cap ((a.head + a.size - j + a.cap) % a.cap) 0 j
          ≡ drop (a.size - j) (contents a)
    window j h =
        let d : ℕ = a.size - j in
        let back : a.head + a.size - j ≡ a.head + d = omega (arith, h) in
        let left : a.size - d ≡ j = omega (arith, h) in
        let later : d + 0 ≡ 0 + d = omega arith in
        ap (λ x. slots a.ring a.cap x 0 j)
          (add-mod_right (a.head + a.size - j) a.cap ∙ ap (λ x. x % a.cap) back)
        ∙ slots-start a.ring a.cap a.head d 0 j
        ∙ ap₂ (λ x y. slots a.ring a.cap a.head x y) later (sym left)
        ∙ sym (drop-slots a.ring a.cap a.head 0 d a.size (omega arith))

    read :
        (ltb a.size n ≡ true) ⊎ (ltb a.size n ≡ false)
        → some (slots a.ring a.cap ((a.head + a.size - k + a.cap) % a.cap) 0 k)
          ≡ some (newest n (contents a))
    read (inl more) =
        let none_left : a.size - a.size ≡ length (contents a) - n =
          omega (arith, held, ltb→lt _ _ more) in
        rw more (ap some (window a.size (omega arith) ∙ ap (λ x. drop x (contents a)) none_left))
    read (inr few) =
        let same : a.size - n ≡ length (contents a) - n = omega (arith, held) in
        rw few (ap some (window n (ltb→le _ _ few) ∙ ap (λ x. drop x (contents a)) same))
