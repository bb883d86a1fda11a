-- ===== src/Base/Windows.antt =====
-- The values of a function on a range of numbers, as a list.
use Prim.Native.Nat.{ℕ, zero, suc, ◌+◌, ◌-◌, ◌<◌, ◌≤◌}
use mathlib.Core.Path.{◌≡◌, refl, ap, ◌∙◌}
use mathlib.Core.List.{List, [], ◌∷◌, ◌++◌}
use native.Mathlib.Omega.{arith}
use petrel_os.Base.Lists.{take, drop}

module _ {ℓ} {A : Type ℓ} where
  -- The values of `f` from `start` on, `n` of them.
  unfoldable pub window : (ℕ → A) → ℕ → ℕ → List A
  window f start zero = []
  window f start (suc n) = f start ∷ window f (start + 1) n

  pub window-ap :
      (f g : ℕ → A) (start n : ℕ)
      → ((k : ℕ) → k < start + n → f k ≡ g k)
      → window f start n ≡ window g start n
  unfolding window
  window-ap f g start zero same = refl
  window-ap f g start (suc n) same =
      rw (same start (omega arith), window-ap f g (start + 1) n (λ k h. same k (omega (arith, h))))

  pub window-suc :
      (f : ℕ → A) (start n : ℕ) → window f start (suc n) ≡ window f start n ++ (f (start + n) ∷ [])
  unfolding window
  window-suc f start zero = let same : start ≡ start + 0 = omega arith in ap (λ k. f k ∷ []) same
  window-suc f start (suc n) =
      let same : start + 1 + n ≡ start + suc n = omega arith in
      ap (◌∷◌ (f start))
        (window-suc f (start + 1) n ∙ ap (λ k. window f (start + 1) n ++ (f k ∷ [])) same)

  pub window-append :
      (f : ℕ → A) (start m n : ℕ)
      → window f start (m + n) ≡ window f start m ++ window f (start + m) n
  unfolding window
  window-append f start zero n =
      let none_more : 0 + n ≡ n = omega arith in
      let same : start ≡ start + 0 = omega arith in
      ap (window f start) none_more ∙ ap (λ k. window f k n) same
  window-append f start (suc m) n =
      let more : suc m + n ≡ suc (m + n) = omega arith in
      let same : start + 1 + m ≡ start + suc m = omega arith in
      ap (window f start) more
      ∙ ap (◌∷◌ (f start))
          (window-append f (start + 1) m n ∙ ap (λ k. window f (start + 1) m ++ window f k n) same)

  pub take-window :
      (f : ℕ → A) (i start n : ℕ) → i ≤ n → take i (window f start n) ≡ window f start i
  unfolding window
  take-window f zero start n h = refl
  take-window f (suc i) start zero h = absurd (omega arith)
  take-window f (suc i) start (suc n) h =
      ap (◌∷◌ (f start)) (take-window f i (start + 1) n (omega arith))

  pub drop-window :
      (f : ℕ → A) (i start n : ℕ) → i ≤ n → drop i (window f start n) ≡ window f (start + i) (n - i)
  unfolding window
  drop-window f zero start n h =
      let from : start ≡ start + 0 = omega arith in
      let size : n ≡ n - 0 = omega arith in
      ap (λ k. window f k n) from ∙ ap (window f (start + 0)) size
  drop-window f (suc i) start zero h = absurd (omega arith)
  drop-window f (suc i) start (suc n) h =
      let from : start + 1 + i ≡ start + suc i = omega arith in
      let size : n - i ≡ suc n - suc i = omega arith in
      drop-window f i (start + 1) n (omega arith)
      ∙ ap (λ k. window f k (n - i)) from
      ∙ ap (window f (start + suc i)) size

  -- One function is the other, one place further.
  pub window-shift :
      (f g : ℕ → A) (start n : ℕ)
      → ((k : ℕ) → start ≤ k → k < start + n → f k ≡ g (k + 1))
      → window f start n ≡ window g (start + 1) n
  unfolding window
  window-shift f g start zero same = refl
  window-shift f g start (suc n) same =
      ap (λ x. x ∷ window f (start + 1) n) (same start (omega arith) (omega arith))
      ∙ ap (◌∷◌ (g (start + 1))) (
          window-shift f g (start + 1) n
            (λ k low high. same k (omega (arith, low)) (omega (arith, high))))
