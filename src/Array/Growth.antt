-- ===== src/Array/Growth.antt =====
-- The loop of array_setsize in kern/lib/array.c.
use petrel_os.Base.{
  ℕ, zero, suc, ◌-◌, ◌*◌, ◌^◌, ◌≤◌, ◌<◌, ◌≡◌, refl, sym, subst, ◌⊎◌, inl, inr, false, arith, ltb,
  lt→ltb, lt-cases, done,
}
use petrel_os.Array.{doubled, grow_loop}

-- What the loop finds: a size that is enough, and less than twice what was asked for unless it is what
-- there was or the first 4.
pub record IsGrown (num newmax found : ℕ) : Type 0 where
  pub enough : num ≤ found
  pub not_less : newmax ≤ found
  pub modest : (found ≡ newmax) ⊎ ((found ≤ 4) ⊎ (found < 2 * num))
  pub representable : found < 2 ^ 32

-- The loop of array_setsize ends for a size up to 2^31: it finds a size that is enough, not less than
-- the old one, and less than twice the size asked for, unless it is the old one or at most 4; it does
-- not overflow.
pub grow_loop-IsGrown :
    (fuel num newmax : ℕ)
    → num ≤ 2 ^ 31
    → newmax < 2 ^ 32
    → num - newmax < fuel
    → (found : ℕ) × (grow_loop fuel num newmax ≡ done found) × IsGrown num newmax found
unfolding grow_loop
grow_loop-IsGrown zero num newmax small fits enough = absurd (omega arith)
grow_loop-IsGrown (suc fuel) num newmax small fits enough = elim (lt-cases newmax num) [
  | inr done_already ↦
      let test : ltb newmax num ≡ false = ground arith in
      (
        newmax,
        rw test refl,
        record {
          enough = done_already;
          not_less = omega arith;
          modest = inl refl;
          representable = fits;
        },
      )
  | inl short ↦
      let larger : newmax < doubled newmax = ground arith in
      let bounded : doubled newmax < 2 ^ 32 = ground arith in
      let modest : (doubled newmax ≤ 4) ⊎ (doubled newmax < 2 * num) = ground arith in
      let (found, e, g) =
        grow_loop-IsGrown fuel num (doubled newmax) small bounded
          (omega (arith, larger, short, enough)) in
      (
        found,
        rw (lt→ltb newmax num short) e,
        record {
          enough = g.enough;
          not_less = omega (arith, g.not_less, larger);
          modest = inr (elim g.modest [
            | inl same ↦ subst (λ x. (x ≤ 4) ⊎ (x < 2 * num)) (sym same) modest
            | inr within ↦ within
          ]);
          representable = g.representable;
        },
      )
]
