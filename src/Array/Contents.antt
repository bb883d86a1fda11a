-- ===== src/Array/Contents.antt =====
-- The operations of kern/lib/array.c and kern/include/array.h against lists.
use petrel_os.Base.{
  ℕ, suc, ◌+◌, ◌-◌, ◌*◌, ◌%◌, ◌^◌, ◌≤◌, ◌<◌, ◌≡◌, refl, sym, ap, ◌∙◌, ◌⊎◌, inl, inr, Bool, true,
  false, ◌&&◌, List, [], ◌∷◌, ◌++◌, arith, ltb, leb, ◌==◌, if◌then◌else◌, lt→ltb, le→leb,
  Bool-cases, lt-cases, update, take, drop, Outcome, done, panic, ◌>>=◌, enomem, Return, ok, fail,
}
use petrel_os.Base.Windows.{
  window, window-ap, window-suc, window-append, window-shift, take-window, drop-window,
}
use petrel_os.Array.{Array, array_setsize, array_add, array_remove, stored}
use petrel_os.Array.Growth.{IsGrown, grow_loop-IsGrown}

-- The elements of the array, in order.
abbrev pub contents : Array → List ℕ
contents a = window a.v 0 a.num

pub record IsValid (a : Array) : Type 0 where
  pub room : a.num ≤ a.max_num
  pub representable : a.max_num < 2 ^ 32

pub data SetsizeResult (got : Bool) (a : Array) (num : ℕ) : Outcome (Return Array) → Type 0 where
  refused : a.max_num < num → got ≡ false → SetsizeResult got a num (done (fail enomem))
  resized :
      (a' : Array)
      → IsValid a'
      → a'.num ≡ num
      → ((k : ℕ) → k < a.num → a'.v k ≡ a.v k)
      → SetsizeResult got a num (done (ok a'))

below_2_30 :
    {num newmax found : ℕ} → newmax < num → num ≤ 2 ^ 29 → IsGrown num newmax found → found < 2 ^ 30
below_2_30 short small g = elim g.modest [
  | inl same ↦ omega (arith, same, short, small)
  | inr (inl few) ↦ omega (arith, few)
  | inr (inr less) ↦ omega (arith, less, small)
]

-- array_setsize, for a size up to 2^29, always returns: it refuses only where it has to allocate and
-- kmalloc refuses; otherwise the array stays valid, has the size asked for, and keeps its elements.
array_setsize-SetsizeResult :
    (got : Bool) (fresh : ℕ → ℕ) (a : Array) (num : ℕ)
    → IsValid a
    → num ≤ 2 ^ 29
    → SetsizeResult got a num (array_setsize got fresh a num)
unfolding array_setsize
array_setsize-SetsizeResult got fresh a num valid small = elim (lt-cases a.max_num num) [
  | inr enough ↦
      let test : ltb a.max_num num ≡ false = ground arith in
      rw test (
        resized (record a { num = num })
          (record { room = enough; representable = valid.representable }) refl (λ k below. refl))
  | inl short ↦
      let (found, e, g) =
        grow_loop-IsGrown (suc num) num a.max_num (omega (arith, small)) valid.representable
          (omega arith) in
      let bound : found < 2 ^ 30 = below_2_30 short small g in
      let whole : ((found * 4 % 2 ^ 32) == found * 4) ≡ true = ground (arith, bound) in
      elim (Bool-cases got) [
        | inr none_left ↦ rw (lt→ltb a.max_num num short, e, whole, none_left) (refused short refl)
        | inl given ↦
            rw (lt→ltb a.max_num num short, e, whole, given)
              (resized _ (record { room = g.enough; representable = g.representable }) refl
                (λ k below. ground arith))
      ]
]

pub data AddResult (got : Bool) (a : Array) (val : ℕ) : Outcome (Return (ℕ × Array)) → Type 0 where
  refused : a.max_num < a.num + 1 → got ≡ false → AddResult got a val (done (fail enomem))
  added :
      (a' : Array)
      → IsValid a'
      → contents a' ≡ contents a ++ (val ∷ [])
      → AddResult got a val (done (ok (a.num, a')))

stored-AddResult :
    {got : Bool} {a : Array} (val : ℕ) {m : Outcome (Return Array)}
    → IsValid a
    → SetsizeResult got a (a.num + 1) m
    → AddResult got a val (m >>= λ result. done (stored a.num val result))
unfolding stored
stored-AddResult val valid (SetsizeResult.refused short none_left) = refused short none_left
stored-AddResult {got} {a} val valid (resized a' valid' size same) =
    let more : a'.num ≡ suc a.num = omega (arith, size) in
    let last : update a'.v a.num val (0 + a.num) ≡ val = ground arith in
    added _ (record { room = valid'.room; representable = valid'.representable })
      (ap (window (update a'.v a.num val) 0) more
        ∙ window-suc (update a'.v a.num val) 0 a.num
        ∙ ap (λ x. window (update a'.v a.num val) 0 a.num ++ (x ∷ [])) last
        ∙ ap (λ xs. xs ++ (val ∷ []))
            (window-ap (update a'.v a.num val) a.v 0 a.num (λ k below. ground (arith, same k))))

-- array_add to a valid array of fewer than 2^29 elements puts the element at the end and returns its
-- index, or returns ENOMEM, and then the array was full and kmalloc refused.
pub array_add-AddResult :
    (got : Bool) (fresh : ℕ → ℕ) (a : Array) (val : ℕ)
    → IsValid a
    → a.num < 2 ^ 29
    → AddResult got a val (array_add got fresh a val)
unfolding array_add
array_add-AddResult got fresh a val valid small =
    let size : (a.num + 1) % 2 ^ 32 ≡ a.num + 1 = omega (arith, small) in
    rw size (
      stored-AddResult val valid
        (array_setsize-SetsizeResult got fresh a (a.num + 1) valid (omega (arith, small))))

abbrev removed : Array → ℕ → Array
removed a index = record a {
  v = λ k. if leb index k && ltb k (a.num - 1) then a.v (k + 1) else a.v k;
  num = a.num - 1;
}

contents-removed :
    (a : Array) (index : ℕ)
    → index < a.num
    → contents (removed a index) ≡ take index (contents a) ++ drop (index + 1) (contents a)
contents-removed a index inside =
    let left : ℕ = a.num - (index + 1) in
    let size : a.num - 1 ≡ index + left = omega (arith, inside) in
    let moved : ℕ → ℕ = (removed a index).v in
    let from : 0 + index + 1 ≡ 0 + (index + 1) = omega arith in
    let front : window moved 0 index ≡ take index (contents a) =
      window-ap moved a.v 0 index (λ k below. ground arith)
      ∙ sym (take-window a.v index 0 a.num (omega (arith, inside))) in
    let back : window moved (0 + index) left ≡ drop (index + 1) (contents a) =
      window-shift moved a.v (0 + index) left (λ k low high. ground arith)
      ∙ ap (λ k. window a.v k left) from
      ∙ sym (drop-window a.v (index + 1) 0 a.num (omega (arith, inside))) in
    ap (window moved 0) size
    ∙ window-append moved 0 index left
    ∙ ap (λ xs. xs ++ window moved (0 + index) left) front
    ∙ ap (λ ys. take index (contents a) ++ ys) back

-- array_remove of an index in a valid array takes out that element alone, and those after it move up;
-- an index out of range stops the kernel.
array_remove-contents :
    (a : Array) (index : ℕ)
    → IsValid a
    → ((array_remove a index ≡ panic) × (a.num ≤ index))
      ⊎ ((a' : Array) × (array_remove a index ≡ done a')
          × (index < a.num)
          × IsValid a'
          × (contents a' ≡ take index (contents a) ++ drop (index + 1) (contents a)))
unfolding array_remove
array_remove-contents a index valid = elim (lt-cases index a.num) [
  | inr outside ↦
      let test : ltb index a.num ≡ false = ground arith in
      inl (rw (le→leb _ _ valid.room, test) refl, outside)
  | inl inside ↦ inr (
    removed a index,
    rw (le→leb _ _ valid.room, lt→ltb _ _ inside) refl,
    inside,
    record { room = omega (arith, valid.room); representable = valid.representable },
    contents-removed a index inside,
  )
]
