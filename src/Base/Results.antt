-- ===== src/Base/Results.antt =====
-- What a kernel function comes to: it returns, it stops the machine (KASSERT and panic of
-- kern/include/lib.h), or it waits for what no one does.
use mathlib.Core.Path.{◌≡◌, refl}
use mathlib.Core.Bool.{Bool, true, false}
use mathlib.Core.Logic.{◌⊎◌, inl, inr}

pub data Outcome {ℓ} (A : Type ℓ) : Type ℓ where
  done : A → Outcome A
  panic : Outcome A
  hang : Outcome A

infixl 5 ◌>>=◌ ◌>>◌
abbrev pub ◌>>=◌ {ℓ κ} : {A : Type ℓ} {B : Type κ} → Outcome A → (A → Outcome B) → Outcome B
done a >>= f = f a
panic >>= f = panic
hang >>= f = hang

abbrev pub ◌>>◌ {ℓ} : {B : Type ℓ} → Outcome (Unit {0}) → Outcome B → Outcome B
m >> k = m >>= λ _. k

abbrev pub kassert : Bool → Outcome (Unit {0})
kassert true = done tt
kassert false = panic

-- The error codes of kern/include/kern/errno.h that the modelled code returns.
pub data Errno : Type 0 where
  enomem einval enospc efault esrch echild enproc ebadf eio exdev enoent emfile espipe : Errno

-- A function that returns an error code, and its results where the code is 0.
pub data Return {ℓ} (A : Type ℓ) : Type ℓ where
  ok : A → Return A
  fail : Errno → Return A

pub Outcome-cases {ℓ} :
    {A : Type ℓ} (m : Outcome A) → ((a : A) × (m ≡ done a)) ⊎ ((m ≡ panic) ⊎ (m ≡ hang))
Outcome-cases (done a) = inl (a, refl)
Outcome-cases panic = inr (inl refl)
Outcome-cases hang = inr (inr refl)
