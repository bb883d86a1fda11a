-- ===== src/FileTable/Tests.antt =====
-- The file calls at work on small tables.
use petrel_os.Base.{ℕ, ◌≡◌, refl, true, false, none, some, [], ◌∷◌, arith, replicate, ok}
use petrel_os.Base.Int.{pos, ◌+ℤ◌}
use petrel_os.FileTable.{
  OpenFile, Files, OpenCalls, sys_close, sys_dup2, sys_open, seek_cur, sys_lseek,
}
use petrel_os.FileTable.Counts.{IsCounted}
use petrel_os.FileTable.Close.{CloseResult, sys_close-CloseResult, sys_close-IsCounted}
use petrel_os.FileTable.Dup.{DupResult, sys_dup2-DupResult}
use petrel_os.FileTable.Open.{OpenResult, sys_open-OpenResult}
use petrel_os.FileTable.OpenCounts.{sys_open-IsCounted}
use petrel_os.FileTable.Transfer.{wronly, VnodeOp, RwResult, sys_rw, sys_rw-RwResult}

abbrev no_file : OpenFile
no_file = record { status = 0; offset = pos 0; refcnt = pos 0; update_pos = false; vnode = 0 }

abbrev no_files : Files
no_files = record {
  fd = replicate 16 none;
  others = [];
  files = λ _. no_file;
  live = λ _. false;
  closed = [];
}

abbrev calls : OpenCalls
calls = record {
  new_file = some 7;
  got_mutex = true;
  got_kbuf = true;
  copied = true;
  opened = ok 40;
}

no_files-IsCounted : IsCounted no_files
no_files-IsCounted = record {
  size = refl;
  counted = λ f e. ground (arith, e);
  used = λ f e. ground (arith, e);
  dangling = λ f e. refl;
}

-- One open file, at the descriptor 0.
abbrev one_open : Files
one_open = (sys_open no_files true 2 calls).0

one_open-IsCounted : IsCounted one_open
one_open-IsCounted = sys_open-IsCounted no_files true 2 calls no_files-IsCounted (λ f e. refl)

-- It is shared by the descriptor 3.
abbrev two_open : Files
two_open = (sys_dup2 one_open (pos 0) (pos 3)).0

one_open-fd : one_open.fd ≡ some 7 ∷ replicate 15 none
unfolding sys_open
one_open-fd = refl

two_open-refcnt : (two_open.files 7).refcnt ≡ pos 2
unfolding sys_open sys_dup2
two_open-refcnt = refl

closed_once : ((sys_close two_open (pos 0)).0.files 7).refcnt ≡ pos 1
unfolding sys_open sys_dup2 sys_close
closed_once = refl

closed_twice : (sys_close (sys_close two_open (pos 0)).0 (pos 3)).0.closed ≡ 40 ∷ []
unfolding sys_open sys_dup2 sys_close
closed_twice = refl

sys_close-CloseResult_example : CloseResult one_open (pos 0) (sys_close one_open (pos 0))
sys_close-CloseResult_example = sys_close-CloseResult one_open (pos 0) one_open-IsCounted

sys_close-IsCounted_example : IsCounted (sys_close one_open (pos 0)).0
sys_close-IsCounted_example = sys_close-IsCounted one_open (pos 0) one_open-IsCounted

sys_dup2-DupResult_example : DupResult one_open (pos 0) (pos 3) (sys_dup2 one_open (pos 0) (pos 3))
sys_dup2-DupResult_example = sys_dup2-DupResult one_open (pos 0) (pos 3) one_open-IsCounted

new_entry : (f : ℕ) → some 8 ≡ some f → one_open.live f ≡ false
unfolding sys_open
new_entry f e = ground (arith, e)

abbrev new_calls : OpenCalls
new_calls = record calls { new_file = some 8 }

sys_open-OpenResult_example :
    OpenResult one_open true 1 new_calls (sys_open one_open true 1 new_calls)
sys_open-OpenResult_example = sys_open-OpenResult one_open true 1 new_calls (λ f e. new_entry f e)

sys_lseek_result :
    (sys_lseek one_open (pos 0) (pos 5) (some seek_cur) (pos 100) (λ _. none)).1 ≡ ok (pos 5)
unfolding sys_open sys_lseek ◌+ℤ◌
sys_lseek_result = refl

-- A vnode that takes everything it is given.
abbrev takes_all : VnodeOp
unfolding ◌+ℤ◌
takes_all mode vnode offset len = (offset +ℤ pos len, none)

sys_rw-RwResult_example :
    RwResult one_open
      (pos 0)
      true
      12
      wronly
      takes_all
      (sys_rw one_open (pos 0) true 12 wronly takes_all)
sys_rw-RwResult_example = sys_rw-RwResult one_open (pos 0) true 12 wronly takes_all
