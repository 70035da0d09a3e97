-- ===== src/Network/Requests/Dropped.antt =====
-- What the clean-up drops.
use native.Mathlib.Nat.{zero-add}
use cdns.Network.Requests.{Request, is_closed, resize, clean}
use cdns.Network.Requests.Open.{sweep, last_after, clean-sweep}
use cdns.Prelude.{
  length, All, ℕ, suc, ◌+◌, ◌≡◌, refl, ap, ◌∙◌, true, false, List, [], ◌∷◌, ◌++◌, arith,
}

resize-append : (xs ys : List Request) → resize (length xs) (xs ++ ys) ≡ xs
unfolding resize
resize-append [] ys = refl
resize-append (x ∷ xs) ys = ap (◌∷◌ x) (resize-append xs ys)

sweep-front :
    (i last : ℕ) (xs ys : List Request)
    → All (λ x. is_closed x ≡ false) xs
    → last ≡ i
    → (sweep false (xs ++ ys) ≡ xs ++ sweep false ys)
      × (last_after false i last (xs ++ ys) ≡ last_after false (i + length xs) (i + length xs) ys)
unfolding sweep last_after
sweep-front i last [] ys h e = (refl, let z : i + 0 ≡ i = omega arith in rw (z, e) refl)
sweep-front i last (x ∷ xs) ys h e =
    let ih = sweep-front (i + 1) (i + 1) xs ys h.1 refl in
    let n : i + 1 + length xs ≡ i + suc (length xs) = omega arith in
    (rw h.0 (ap (◌∷◌ x) ih.0), rw h.0 (ih.1 ∙ ap (λ k. last_after false k k ys) n))

-- When a closed request stands between the active ones and one last active request, the clean-up
-- drops the closed request and that active one.
pub clean_drops :
    (xs : List Request) (d a : Request)
    → All (λ x. is_closed x ≡ false) xs
    → is_closed d ≡ true
    → is_closed a ≡ false
    → clean (xs ++ d ∷ a ∷ []) ≡ xs
unfolding sweep last_after
clean_drops xs d a h hd ha =
    let f = sweep-front 0 0 xs (d ∷ a ∷ []) h refl in
    let n : last_after false (0 + length xs) (0 + length xs) (d ∷ a ∷ []) ≡ length xs =
      rw hd (zero-add (length xs)) in
    clean-sweep (xs ++ d ∷ a ∷ [])
    ∙ (rw (f.0, f.1, n) (resize-append xs (sweep false (d ∷ a ∷ []))))
