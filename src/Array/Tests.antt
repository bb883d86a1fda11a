-- ===== src/Array/Tests.antt =====
-- An array of three elements out of four.
use petrel_os.Base.{ℕ, ◌+◌, ◌≡◌, refl, true, arith, done}
use petrel_os.Array.{Array, array_add, grow_loop}
use petrel_os.Array.Growth.{IsGrown, grow_loop-IsGrown}
use petrel_os.Array.Contents.{IsValid, AddResult, array_add-AddResult}

abbrev three : Array
three = record { v = λ k. k + 10; num = 3; max_num = 4 }

three-IsValid : IsValid three
three-IsValid = record { room = omega arith; representable = omega arith }

grown : grow_loop 6 9 4 ≡ done 16
unfolding grow_loop
grown = refl

grow_loop-IsGrown_example : (found : ℕ) × (grow_loop 10 9 4 ≡ done found) × IsGrown 9 4 found
grow_loop-IsGrown_example = grow_loop-IsGrown 10 9 4 (omega arith) (omega arith) (omega arith)

array_add-AddResult_example : AddResult true three 7 (array_add true (λ _. 0) three 7)
array_add-AddResult_example = array_add-AddResult true (λ _. 0) three 7 three-IsValid (omega arith)
