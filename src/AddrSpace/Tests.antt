-- ===== src/AddrSpace/Tests.antt =====
-- The layout of a small program.
use petrel_os.Base.{◌≡◌, refl, true, false, [], ◌∷◌, arith, einval, fail}
use petrel_os.Base.Int.{pos, negsuc}
use petrel_os.AddrSpace.{Region, AddrSpace, sys_sbrk, as_get_permissions}
use petrel_os.AddrSpace.Sbrk.{IsBounded, negative, SbrkResult, sys_sbrk-SbrkResult}

abbrev text : Region
text = record { base = 4194304; sz = 8192; readable = true; writeable = false; executable = true }

abbrev program : AddrSpace
program = record {
  heap_start = 4202496;
  heap_end = 4210688;
  regions = text ∷ [];
  is_loading = false;
}

program-IsBounded : IsBounded program
program-IsBounded = record {
  ordered = omega arith;
  below_stack = omega arith;
  within_max = omega arith;
}

sys_sbrk-SbrkResult_example : SbrkResult program (negsuc 4095) (sys_sbrk program (negsuc 4095))
sys_sbrk-SbrkResult_example =
    sys_sbrk-SbrkResult program (negsuc 4095) program-IsBounded (negative 4095 (omega arith))

sbrk_below_start : (sys_sbrk program (negsuc 8192)).1 ≡ fail einval
unfolding sys_sbrk
sbrk_below_start = refl

outside : as_get_permissions program 5000050 ≡ negsuc 0
unfolding as_get_permissions
outside = refl

inside : as_get_permissions program 4194404 ≡ pos 5
unfolding as_get_permissions
inside = refl
