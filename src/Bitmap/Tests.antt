-- ===== src/Bitmap/Tests.antt =====
-- Bitmaps of nine and of sixteen bits.
use petrel_os.Base.{ℕ, zero, suc, ◌<◌, ◌≡◌, refl, true, some, [], ◌∷◌, arith, get_or, done}
use petrel_os.Bitmap.{Bitmap, create, alloc}
use petrel_os.Bitmap.Valid.{IsValid}
use petrel_os.Bitmap.Alloc.{Allocated, alloc-Allocated}

abbrev nine : Bitmap
nine = record { nbits = 9; v = 0 ∷ 254 ∷ [] }

created : create true true 9 ≡ done (some nine)
unfolding create
created = refl

abbrev sixteen : Bitmap
sixteen = record { nbits = 16; v = 3 ∷ 0 ∷ [] }

sixteen-IsValid : IsValid sixteen
sixteen-IsValid = record {
  small = omega arith;
  words = refl;
  bytes = sixteen_bytes;
  spare = λ i lo hi. absurd (omega (arith, lo, hi));
}
  where
    sixteen_bytes : (i : ℕ) → get_or sixteen.v i 0 < 256
    sixteen_bytes zero = omega arith
    sixteen_bytes (suc zero) = omega arith
    sixteen_bytes (suc (suc i)) = omega arith

alloc-Allocated_example : Allocated sixteen (alloc sixteen)
alloc-Allocated_example = alloc-Allocated sixteen-IsValid
