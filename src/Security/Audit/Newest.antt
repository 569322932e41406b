-- ===== src/Security/Audit/Newest.antt =====
-- The last elements of a list: what a bounded log keeps.
use grimlocker_public.Base.{
  ℕ, zero, suc, ◌+◌, ◌-◌, ◌≤◌, ◌≡◌, refl, sym, ap, ◌∙◌, List, [], ◌∷◌, ◌++◌, arith, length, drop,
  drop-drop, length-append, length-drop,
}

module _ {ℓ} {A : Type ℓ} where
  abbrev pub newest : ℕ → List A → List A
  newest n xs = drop (length xs - n) xs

  pub drop-append : (n : ℕ) (xs ys : List A) → n ≤ length xs → drop n (xs ++ ys) ≡ drop n xs ++ ys
  drop-append zero xs ys h = refl
  drop-append (suc n) [] ys h = absurd (omega arith)
  drop-append (suc n) (x ∷ xs) ys h = drop-append n xs ys (omega arith)

  -- What was forgotten before is forgotten after.
  pub newest-newest_append :
      (n : ℕ) (xs ys : List A) → newest n (newest n xs ++ ys) ≡ newest n (xs ++ ys)
  newest-newest_append n xs ys =
      let k : ℕ = length xs - n in
      let m : ℕ = length (drop k xs ++ ys) - n in
      let total : k + m ≡ length (xs ++ ys) - n =
        omega (arith, length-append (drop k xs) ys, length-append xs ys, length-drop k xs) in
      ap (drop m) (sym (drop-append k xs ys (omega arith)))
      ∙ drop-drop k m (xs ++ ys)
      ∙ ap (λ j. drop j (xs ++ ys)) total

  pub newest_all : (n : ℕ) (xs : List A) → length xs ≤ n → newest n xs ≡ xs
  newest_all n xs h = let e : length xs - n ≡ 0 = omega arith in ap (λ k. drop k xs) e
