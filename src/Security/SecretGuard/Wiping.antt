-- ===== src/Security/SecretGuard/Wiping.antt =====
-- A secret can be taken out once, and nothing is left of it.
use grimlocker_public.Base.{
  ℕ, zero, suc, ◌<◌, ◌≡◌, ◌≢◌, refl, ap, ◌∙◌, List, [], ◌∷◌, ◌++◌, none, some, arith, length,
  get_or, set, replicate, length-append, bytes_eq_refl,
}
use grimlocker_public.Base.Dict.{Key, lookup, insert, lookup-insert, lookup-erase, bytes_eq_iff}
use grimlocker_public.Security.SecretGuard.{SecretGuard, zeroize, zeroize_at, store, retrieve}

get_or-end : (xs : List (List ℕ)) (x : List ℕ) → get_or (xs ++ x ∷ []) (length xs) [] ≡ x
get_or-end [] x = refl
get_or-end (y ∷ xs) x = get_or-end xs x

get_or-set :
    (xs : List (List ℕ)) (i : ℕ) (v : List ℕ) → i < length xs → get_or (set xs i v) i [] ≡ v
get_or-set [] i v h = absurd (omega arith)
get_or-set (x ∷ xs) zero v h = refl
get_or-set (x ∷ xs) (suc i) v h = get_or-set xs i v (omega arith)

zeroize-replicate : (bs : List ℕ) → zeroize bs ≡ replicate (length bs) 0
zeroize-replicate [] = refl
zeroize-replicate (b ∷ bs) = ap (λ r. 0 ∷ r) (zeroize-replicate bs)

heap-retrieve :
    (token : Key) (g : SecretGuard) (addr : ℕ)
    → lookup token g.slots ≡ some addr
    → (retrieve token g).1.heap ≡ zeroize_at addr g.heap
unfolding retrieve
heap-retrieve token g addr h = ground arith

-- A stored secret is retrieved unchanged with its token; a second attempt finds nothing, and the
-- guard's buffer then holds only zeros. The slots of other tokens stay as they are.
pub retrieve-store :
    (token : Key) (secret : List ℕ) (g : SecretGuard)
    → let g' = (store (some token) secret g).1 in
      let after = (retrieve token g').1 in
      ((retrieve token g').0 ≡ some secret)
      × ((retrieve token after).0 ≡ none)
      × (get_or after.heap (length g.heap) [] ≡ replicate (length secret) 0)
      × ((other : Key) → token ≢ other → lookup other after.slots ≡ lookup other g.slots)
unfolding store retrieve
retrieve-store token secret g =
    let here = lookup-insert token token (length g.heap) g.slots in
    let slots = insert token (length g.heap) g.slots in
    let at_end = get_or-end g.heap secret in
    (
      ground (arith, here, bytes_eq_refl token, at_end),
      ground (arith, here, bytes_eq_refl token, lookup-erase token token slots),
      ap (λ h. get_or h (length g.heap) [])
            (heap-retrieve token (store (some token) secret g).1 (length g.heap)
              (here ∙ rw (bytes_eq_refl token) refl))
          ∙ get_or-set (g.heap ++ secret ∷ []) (length g.heap) _
              (omega (arith, length-append g.heap (secret ∷ [])))
          ∙ ap zeroize at_end
          ∙ zeroize-replicate secret,
      λ other n. ground (
        arith,
        here,
        bytes_eq_refl token,
        bytes_eq_iff token other,
        lookup-erase token other slots,
        lookup-insert token other (length g.heap) g.slots,
      ),
    )
