-- ===== src/FileTable/Counts.antt =====
-- The reference counts of open files against the tables that refer to them.
use petrel_os.Base.{
  ℕ, zero, suc, ◌+◌, ◌<◌, ◌≡◌, inl, inr, Bool, true, false, Option, some, List, [], ◌∷◌, arith,
  ==_refl, Bool-cases, length, set,
}
use petrel_os.Base.Int.{pos}
use petrel_os.FileTable.{Files, max_file_descriptor, entry_of, same_file}

abbrev pub one_if : Bool → ℕ
one_if true = 1
one_if false = 0

-- How often a table refers to the open file `f`.
abbrev pub refs : ℕ → List (Option ℕ) → ℕ
refs f [] = 0
refs f (e ∷ fd) = one_if (same_file e f) + refs f fd

abbrev pub refs_all : ℕ → List (List (Option ℕ)) → ℕ
refs_all f [] = 0
refs_all f (fd ∷ fds) = refs f fd + refs_all f fds

-- The references to `f` of all threads together.
abbrev pub total : Files → ℕ → ℕ
total s f = refs f s.fd + refs_all f s.others

-- Every allocated open file is referred to, and counts its references; nothing refers to any other.
pub record IsCounted (s : Files) : Type 0 where
  pub size : length s.fd ≡ max_file_descriptor
  pub counted : (f : ℕ) → s.live f ≡ true → (s.files f).refcnt ≡ pos (total s f)
  pub used : (f : ℕ) → s.live f ≡ true → 0 < total s f
  pub dangling : (f : ℕ) → s.live f ≡ false → total s f ≡ 0

pub refs-set :
    (f : ℕ) (fd : List (Option ℕ)) (i : ℕ) (e : Option ℕ)
    → i < length fd
    → refs f (set fd i e) + one_if (same_file (entry_of fd i) f)
      ≡ refs f fd + one_if (same_file e f)
refs-set f [] i e h = absurd (omega arith)
refs-set f (x ∷ fd) zero e h = omega arith
refs-set f (x ∷ fd) (suc i) e h = omega (arith, refs-set f fd i e (omega arith))

-- An entry that refers to `f` is counted.
pub refs-pos : (f : ℕ) (fd : List (Option ℕ)) (i : ℕ) → entry_of fd i ≡ some f → 0 < refs f fd
refs-pos f [] i e = absurd (ground arith)
refs-pos f (x ∷ fd) zero e = rw (e, ==_refl f) (omega arith)
refs-pos f (x ∷ fd) (suc i) e = omega (arith, refs-pos f fd i e)

pub entry-live : {s : Files} → IsCounted s → (i f : ℕ) → entry_of s.fd i ≡ some f → s.live f ≡ true
entry-live {s} c i f e = elim (Bool-cases (s.live f)) [
  | inl alive ↦ alive
  | inr dead ↦ absurd (omega (arith, c.dangling f dead, refs-pos f s.fd i e))
]
