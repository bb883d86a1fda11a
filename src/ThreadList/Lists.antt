-- ===== src/ThreadList/Lists.antt =====
-- The places of a list of threads (kern/thread/threadlist.c), as a list.
use petrel_os.Base.{
  ℕ, zero, suc, ◌+◌, ◌-◌, ◌≤◌, ◌<◌, ◌≡◌, refl, sym, ap, ◌∙◌, List, [], ◌∷◌, ◌++◌, arith, length,
  get_or, take, drop, length-append,
}
use petrel_os.Base.Windows.{
  window, window-ap, window-append, window-shift, take-window, drop-window,
}
use petrel_os.ThreadList.Places.{inserted_at, removed_at}

pub window-inserted_at :
    (at : ℕ → ℕ) (p t c : ℕ)
    → p ≤ c
    → window (inserted_at at p t) 1 (c + 1) ≡ take p (window at 1 c) ++ (t ∷ drop p (window at 1 c))
unfolding window
window-inserted_at at p t c within =
    let new : ℕ → ℕ = inserted_at at p t in
    let size : c + 1 ≡ p + suc (c - p) = omega (arith, within) in
    let front : window new 1 p ≡ take p (window at 1 c) =
      window-ap new at 1 p (λ k below. ground arith) ∙ sym (take-window at p 1 c within) in
    let here : new (1 + p) ≡ t = ground arith in
    let back : window new (1 + p + 1) (c - p) ≡ drop p (window at 1 c) =
      sym (
        window-shift at new (1 + p) (c - p)
          (λ k low high. let same : k ≡ k + 1 - 1 = omega arith in ap at same ∙ ground arith))
      ∙ sym (drop-window at p 1 c within) in
    ap (window new 1) size
    ∙ window-append new 1 p (suc (c - p))
    ∙ ap (λ xs. xs ++ window new (1 + p) (suc (c - p))) front
    ∙ ap (λ x. take p (window at 1 c) ++ (x ∷ window new (1 + p + 1) (c - p))) here
    ∙ ap (λ ys. take p (window at 1 c) ++ (t ∷ ys)) back

pub window-removed_at :
    (at : ℕ → ℕ) (p c : ℕ)
    → 1 ≤ p
    → p ≤ c
    → window (removed_at at p) 1 (c - 1) ≡ take (p - 1) (window at 1 c) ++ drop p (window at 1 c)
window-removed_at at p c inside within =
    let left : ℕ → ℕ = removed_at at p in
    let size : c - 1 ≡ p - 1 + (c - p) = omega (arith, inside, within) in
    let place : 1 + (p - 1) + 1 ≡ 1 + p = omega (arith, inside) in
    let front : window left 1 (p - 1) ≡ take (p - 1) (window at 1 c) =
      window-ap left at 1 (p - 1) (λ k below. ground arith)
      ∙ sym (take-window at (p - 1) 1 c (omega (arith, within))) in
    let back : window left (1 + (p - 1)) (c - p) ≡ drop p (window at 1 c) =
      window-shift left at (1 + (p - 1)) (c - p) (λ k low high. ground arith)
      ∙ ap (λ k. window at k (c - p)) place
      ∙ sym (drop-window at p 1 c within) in
    ap (window left 1) size
    ∙ window-append left 1 (p - 1) (c - p)
    ∙ ap (λ xs. xs ++ window left (1 + (p - 1)) (c - p)) front
    ∙ ap (λ ys. take (p - 1) (window at 1 c) ++ ys) back

pub take-append : (xs ys : List ℕ) → take (length xs) (xs ++ ys) ≡ xs
take-append [] ys = refl
take-append (x ∷ xs) ys = ap (◌∷◌ x) (take-append xs ys)

pub drop-append : (xs : List ℕ) (y : ℕ) (ys : List ℕ) → drop (length xs + 1) (xs ++ (y ∷ ys)) ≡ ys
drop-append [] y ys = refl
drop-append (x ∷ xs) y ys =
    let size : suc (length xs) + 1 ≡ suc (length xs + 1) = omega arith in
    ap (λ k. drop k (x ∷ (xs ++ (y ∷ ys)))) size ∙ drop-append xs y ys

get_or-append : (xs : List ℕ) (y : ℕ) (ys : List ℕ) → get_or (xs ++ (y ∷ ys)) (length xs) 0 ≡ y
get_or-append [] y ys = refl
get_or-append (x ∷ xs) y ys = get_or-append xs y ys

get_or-window : (f : ℕ → ℕ) (start n i : ℕ) → i < n → get_or (window f start n) i 0 ≡ f (start + i)
unfolding window
get_or-window f start zero i h = absurd (omega arith)
get_or-window f start (suc n) zero h = ap f (omega arith)
get_or-window f start (suc n) (suc i) h =
    get_or-window f (start + 1) n i (omega arith) ∙ ap f (omega arith)

pub length-window : (f : ℕ → ℕ) (start n : ℕ) → length (window f start n) ≡ n
unfolding window
length-window f start zero = refl
length-window f start (suc n) = ap suc (length-window f (start + 1) n)

-- The place of an element.
pub place-window :
    (f : ℕ → ℕ) (n : ℕ) (xs : List ℕ) (y : ℕ) (ys : List ℕ)
    → window f 1 n ≡ xs ++ (y ∷ ys)
    → (length xs < n) × (f (length xs + 1) ≡ y)
place-window f n xs y ys e =
    let total : n ≡ length xs + suc (length ys) =
      sym (length-window f 1 n) ∙ ap length e ∙ length-append xs (y ∷ ys) in
    let below : length xs < n = omega (arith, total) in
    let flip : length xs + 1 ≡ 1 + length xs = omega arith in
    (
      below,
      ap f flip
          ∙ sym (get_or-window f 1 n (length xs) below)
          ∙ ap (λ zs. get_or zs (length xs) 0) e
          ∙ get_or-append xs y ys,
    )

pub drop-length : (xs ys : List ℕ) → drop (length xs) (xs ++ ys) ≡ ys
drop-length [] ys = refl
drop-length (x ∷ xs) ys = drop-length xs ys

pub take-through :
    (xs : List ℕ) (y : ℕ) (ys : List ℕ) → take (length xs + 1) (xs ++ (y ∷ ys)) ≡ xs ++ (y ∷ [])
take-through [] y ys = refl
take-through (x ∷ xs) y ys =
    let size : suc (length xs) + 1 ≡ suc (length xs + 1) = omega arith in
    ap (λ k. take k (x ∷ (xs ++ (y ∷ ys)))) size ∙ ap (◌∷◌ x) (take-through xs y ys)
