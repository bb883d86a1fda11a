-- ===== src/Array.antt =====
-- Arrays that grow: kern/lib/array.c and the inline functions of kern/include/array.h, whose checks
-- are on. A pointer in an array is a number; `unsigned` arithmetic wraps at 2^32.
pub mod Growth
pub mod Contents
mod Tests
use petrel_os.Base.{
  ℕ, zero, suc, ◌+◌, ◌-◌, ◌*◌, ◌%◌, ◌^◌, Bool, ◌&&◌, Option, none, some, ltb, leb, ◌==◌,
  if◌then◌else◌, update, Outcome, done, hang, ◌>>=◌, ◌>>◌, kassert, enomem, Return, ok, fail,
}

-- `struct array`; `v` is the memory from the pointer on.
pub record Array : Type 0 where
  pub v : ℕ → ℕ
  pub num : ℕ
  pub max_num : ℕ

-- array_init; what NULL points to is never looked at.
unfoldable pub array_init : Array
array_init = record { v = λ _. 0; num = 0; max_num = 0 }

-- The Boolean is for kmalloc, and `none` is NULL.
unfoldable pub array_create : Bool → Option Array
array_create got = if got then some array_init else none

-- What is freed is gone; that it returns at all is what there is to know.
unfoldable pub array_cleanup : Array → Outcome (Unit {0})
array_cleanup a = kassert (a.num == 0)

unfoldable pub array_destroy : Array → Outcome (Unit {0})
array_destroy a = array_cleanup a

unfoldable pub array_num : Array → ℕ
array_num a = a.num

unfoldable pub array_get : Array → ℕ → Outcome ℕ
array_get a index = do kassert (ltb index a.num); done (a.v index)

unfoldable pub array_set : Array → ℕ → ℕ → Outcome Array
array_set a index val = do kassert (ltb index a.num); done (record a { v = update a.v index val })

-- `newmax ? newmax*2 : 4`
abbrev pub doubled : ℕ → ℕ
doubled newmax = if newmax == 0 then 4 else newmax * 2 % 2 ^ 32

-- The loop of array_setsize that finds the new size, with fuel for its rounds.
unfoldable pub grow_loop : ℕ → ℕ → ℕ → Outcome ℕ
grow_loop zero num newmax = hang
grow_loop (suc fuel) num newmax =
    let rest = grow_loop fuel num (doubled newmax) in if ltb newmax num then rest else done newmax

-- The Boolean is for kmalloc, and `fresh` is what its memory holds. kmalloc is asked for 4 bytes an
-- element, in 32 bits; the model stops where that wraps around, since the block is then too small.
unfoldable pub array_setsize : Bool → (ℕ → ℕ) → Array → ℕ → Outcome (Return Array)
array_setsize got fresh a num =
    if ltb a.max_num num
    then (do
      newmax ← grow_loop (suc num) num a.max_num
      kassert ((newmax * 4 % 2 ^ 32) == newmax * 4)
      done (
          if got
          then ok (record {
            v = λ k. if ltb k a.num then a.v k else fresh k;
            num = num;
            max_num = newmax;
          })
          else fail enomem))
    else done (ok (record a { num = num }))

-- array_add with what it stores in `index_ret`.
stored : ℕ → ℕ → Return Array → Return (ℕ × Array)
stored index val (fail e) = fail e
stored index val (ok a) = ok (index, record a { v = update a.v index val })

unfoldable pub array_add : Bool → (ℕ → ℕ) → Array → ℕ → Outcome (Return (ℕ × Array))
unfolding stored
array_add got fresh a val = do
  result ← array_setsize got fresh a ((a.num + 1) % 2 ^ 32)
  done (stored a.num val result)

unfoldable pub array_remove : Array → ℕ → Outcome Array
array_remove a index = do
  kassert (leb a.num a.max_num)
  kassert (ltb index a.num)
  done (record a {
    v = λ k. if leb index k && ltb k (a.num - 1) then a.v (k + 1) else a.v k;
    num = a.num - 1;
  })
