-- ===== src/Network/Requests/Open.antt =====
-- The loop of the clean-up as one pass over the vector, and what it keeps.
use native.Mathlib.Nat.{le_refl, zero-add}
use cdns.Network.Requests.{Request, no_request, is_closed, erase_at, resize, clean_loop, clean}
use cdns.Prelude.{
  ltb, if◌then◌else◌, le→ltb, tests, Bool-cases, length, get_or, length-append, ℕ, zero, suc, ◌+◌,
  ◌≤◌, ◌≡◌, refl, ap, ◌∙◌, inl, inr, Bool, true, false, List, [], ◌∷◌, ◌++◌, append_assoc, arith,
}

-- The requests from the index on: those that are kept, and how many of them are in front of the end
-- of the vector that `last` stands for. After an erased one the next is passed over.
unfoldable pub sweep : Bool → List Request → List Request
sweep skip [] = []
sweep true (x ∷ xs) = x ∷ sweep false xs
sweep false (x ∷ xs) = if is_closed x then sweep true xs else x ∷ sweep false xs

-- `last`, for the index `i`.
unfoldable pub last_after : Bool → ℕ → ℕ → List Request → ℕ
last_after skip i last [] = last
last_after true i last (x ∷ xs) = last_after false (i + 1) last xs
last_after false i last (x ∷ xs) =
    let next = last_after true i last xs in
    let kept = last_after false (i + 1) (i + 1) xs in if is_closed x then next else kept

-- The index of the loop stands behind `done`, or one further.
abbrev behind : Bool → List Request → List Request
behind true [] = []
behind true (x ∷ xs) = xs
behind false xs = xs

get_or-append :
    (xs : List Request) (y : Request) (ys : List Request)
    → get_or (xs ++ y ∷ ys) (length xs) no_request ≡ y
get_or-append [] y ys = refl
get_or-append (x ∷ xs) y ys = get_or-append xs y ys

erase_at-append :
    (xs : List Request) (y : Request) (ys : List Request)
    → erase_at (length xs) (xs ++ y ∷ ys) ≡ xs ++ ys
unfolding erase_at
erase_at-append [] y ys = refl
erase_at-append (x ∷ xs) y ys = ap (◌∷◌ x) (erase_at-append xs y ys)

at : Bool → ℕ → ℕ
at true i = i + 1
at false i = i

past_end :
    (fuel i last : ℕ) (reqs : List Request)
    → length reqs ≤ i
    → clean_loop fuel i last reqs ≡ (reqs, last)
unfolding clean_loop
past_end zero i last reqs h = refl
past_end (suc fuel) i last reqs h = rw (le→ltb i (length reqs) h) refl

visit-closed :
    (fuel last : ℕ) (front : List Request) (x : Request) (xs : List Request)
    → is_closed x ≡ true
    → clean_loop (suc fuel) (length front) last (front ++ x ∷ xs)
      ≡ clean_loop fuel (length front + 1) last (front ++ xs)
unfolding clean_loop
visit-closed fuel last front x xs closed =
    let inside : ltb (length front) (length (front ++ x ∷ xs)) ≡ true =
      omega (tests, length-append front (x ∷ xs)) in
    rw (inside, get_or-append front x xs, closed, erase_at-append front x xs) refl

visit-open :
    (fuel last : ℕ) (front : List Request) (x : Request) (xs : List Request)
    → is_closed x ≡ false
    → clean_loop (suc fuel) (length front) last (front ++ x ∷ xs)
      ≡ clean_loop fuel (length front + 1) (length front + 1) (front ++ x ∷ xs)
unfolding clean_loop
visit-open fuel last front x xs active =
    let inside : ltb (length front) (length (front ++ x ∷ xs)) ≡ true =
      omega (tests, length-append front (x ∷ xs)) in
    rw (inside, get_or-append front x xs, active) refl

-- The loop, from an index on.
loop-sweep :
    (skip : Bool) (fuel last : ℕ) (front rest : List Request)
    → length rest ≤ fuel
    → clean_loop fuel (at skip (length front)) last (front ++ rest)
      ≡ (front ++ sweep skip rest, last_after skip (length front) last rest)
unfolding sweep last_after at
loop-sweep true fuel last front [] h =
    past_end fuel (length front + 1) last (front ++ []) (omega (arith, length-append front []))
loop-sweep false fuel last front [] h =
    past_end fuel (length front) last (front ++ []) (omega (arith, length-append front []))
loop-sweep true fuel last front (x ∷ xs) h =
    let ih = loop-sweep false fuel last (front ++ x ∷ []) xs (omega arith) in
    rw
      (
        append_assoc front (x ∷ []) xs,
        append_assoc front (x ∷ []) (sweep false xs),
        length-append front (x ∷ []),
      )
      at ih
loop-sweep false zero last front (x ∷ xs) h = absurd (omega arith)
loop-sweep false (suc fuel) last front (x ∷ xs) h = elim (Bool-cases (is_closed x)) [
  | inl closed ↦
      visit-closed fuel last front x xs closed
      ∙ loop-sweep true fuel last front xs (omega arith)
      ∙ (rw closed refl)
  | inr active ↦
      let ih = loop-sweep false fuel (length front + 1) (front ++ x ∷ []) xs (omega arith) in
      let ih' =
        rw
          (
            append_assoc front (x ∷ []) xs,
            append_assoc front (x ∷ []) (sweep false xs),
            length-append front (x ∷ []),
          )
          at ih in
      visit-open fuel last front x xs active ∙ ih' ∙ (rw active refl)
]

-- The clean-up in one pass.
pub clean-sweep :
    (reqs : List Request) → clean reqs ≡ resize (last_after false 0 0 reqs) (sweep false reqs)
unfolding clean at
clean-sweep reqs =
    ap (λ d. resize d.1 d.0) (loop-sweep false (length reqs) 0 [] reqs (le_refl (length reqs)))

resize-length : (xs : List Request) → resize (length xs) xs ≡ xs
unfolding resize
resize-length [] = refl
resize-length (x ∷ xs) = ap (◌∷◌ x) (resize-length xs)

-- The requests that are not closed.
unfoldable pub active : List Request → List Request
active [] = []
active (x ∷ xs) = if is_closed x then active xs else x ∷ active xs

sweep-active : (skip : Bool) (xs : List Request) → active (sweep skip xs) ≡ active xs
unfolding sweep active
sweep-active skip [] = refl
sweep-active true (x ∷ xs) = ground (arith, sweep-active false xs)
sweep-active false (x ∷ xs) = ground (arith, sweep-active true xs, sweep-active false xs)

active-append : (xs ys : List Request) → active (xs ++ ys) ≡ active xs ++ active ys
unfolding active
active-append [] ys = refl
active-append (x ∷ xs) ys = ground (arith, active-append xs ys)

-- Behind two active requests at the end the whole vector is kept.
last_after-two :
    (skip : Bool) (i last : ℕ) (xs : List Request) (a b : Request)
    → is_closed a ≡ false
    → is_closed b ≡ false
    → last_after skip i last (xs ++ a ∷ b ∷ []) ≡ i + length (sweep skip (xs ++ a ∷ b ∷ []))
unfolding last_after sweep
last_after-two true i last [] a b ha hb = ground arith
last_after-two false i last [] a b ha hb = ground arith
last_after-two true i last (x ∷ xs) a b ha hb =
    ground (arith, last_after-two false (i + 1) last xs a b)
last_after-two false i last (x ∷ xs) a b ha hb =
    ground (arith, last_after-two true i last xs a b, last_after-two false (i + 1) (i + 1) xs a b)

-- When the last two requests are active, the clean-up keeps every active request, in their order.
pub clean-active :
    (xs : List Request) (a b : Request)
    → is_closed a ≡ false
    → is_closed b ≡ false
    → active (clean (xs ++ a ∷ b ∷ [])) ≡ active xs ++ a ∷ b ∷ []
unfolding active
clean-active xs a b ha hb =
    let reqs = xs ++ a ∷ b ∷ [] in
    let whole : clean reqs ≡ sweep false reqs =
      clean-sweep reqs
      ∙ ap (λ n. resize n (sweep false reqs))
          (last_after-two false 0 0 xs a b ha hb ∙ zero-add (length (sweep false reqs)))
      ∙ resize-length (sweep false reqs) in
    rw whole (sweep-active false reqs ∙ active-append xs (a ∷ b ∷ []) ∙ (rw (ha, hb) refl))
