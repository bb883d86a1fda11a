-- ===== src/Copying.antt =====
-- memcpy of common/libc/string/memcpy.c and memmove of common/libc/string/memmove.c. Memory is a function
-- from addresses to bytes, and a buffer does not wrap around its end; a long has 4 bytes.
mod Tests
use petrel_os.Base.{
  ℕ, zero, suc, ◌+◌, ◌-◌, ◌*◌, ◌/◌, ◌%◌, ◌≤◌, ◌<◌, ◌≡◌, refl, sym, ap, ◌∙◌, ◌⊎◌, inl, inr, Bool,
  true, false, ◌&&◌, arith, ltb, leb, ◌==◌, if◌then◌else◌, lt→ltb, Bool-cases, lt-cases,
}

-- Memory with the `size` bytes from `src` on, as they are in `m`, also from `dst` on.
abbrev pub with_copy : (ℕ → ℕ) → ℕ → ℕ → ℕ → ℕ → ℕ
with_copy m dst src size a = if leb dst a && ltb a (dst + size) then m (src + (a - dst)) else m a

-- `d[i] = s[i]` of items of `width` bytes is a `with_copy`. This is the loop of memcpy from `i` on, with
-- `k` rounds left.
unfoldable pub copy_up : ℕ → ℕ → ℕ → (ℕ → ℕ) → ℕ → ℕ → ℕ → ℕ
copy_up width zero i m dst src = m
copy_up width (suc k) i m dst src =
    copy_up width k (i + 1) (with_copy m (dst + i * width) (src + i * width) width) dst src

unfoldable pub copy_down : ℕ → ℕ → (ℕ → ℕ) → ℕ → ℕ → ℕ → ℕ
copy_down width zero m dst src = m
copy_down width (suc i) m dst src =
    copy_down width i (with_copy m (dst + i * width) (src + i * width) width) dst src

abbrev pub word_aligned : ℕ → ℕ → ℕ → Bool
word_aligned dst src len = (dst % 4 == 0) && (src % 4 == 0) && (len % 4 == 0)

unfoldable pub memcpy : (ℕ → ℕ) → ℕ → ℕ → ℕ → ℕ → ℕ
memcpy m dst src len =
    if word_aligned dst src len then copy_up 4 (len / 4) 0 m dst src else copy_up 1 len 0 m dst src

unfoldable pub memmove : (ℕ → ℕ) → ℕ → ℕ → ℕ → ℕ → ℕ
memmove m dst src len =
    let down =
      if word_aligned dst src len
      then copy_down 4 (len / 4) m dst src
      else copy_down 1 len m dst src in
    if ltb dst src then memcpy m dst src len else down

pub inside :
    (m : ℕ → ℕ) (dst src size a : ℕ)
    → dst ≤ a
    → a < dst + size
    → with_copy m dst src size a ≡ m (src + (a - dst))
inside m dst src size a low high =
    let above : leb dst a ≡ true = ground (arith, low) in
    let below : ltb a (dst + size) ≡ true = ground (arith, high) in rw (above, below) refl

pub outside :
    (m : ℕ → ℕ) (dst src size a : ℕ)
    → (a < dst) ⊎ (dst + size ≤ a)
    → with_copy m dst src size a ≡ m a
outside m dst src size a out =
    let test : (leb dst a && ltb a (dst + size)) ≡ false = ground (arith, out) in rw test refl

nothing_copied : (m : ℕ → ℕ) (d s x a : ℕ) → x ≡ 0 → with_copy m d s x a ≡ m a
nothing_copied m d s x a e =
    let test : (leb d a && ltb a (d + x)) ≡ false = ground (arith, e) in rw test refl

first_copied :
    (m : ℕ → ℕ) (d s x y a : ℕ)
    → d ≤ s
    → with_copy (with_copy m d s x) (d + x) (s + x) y a ≡ with_copy m d s (x + y) a
first_copied m d s x y a order = elim (lt-cases a (d + x)) [
  | inl low ↦ elim (lt-cases a d) [
    | inl less ↦
        outside (with_copy m d s x) (d + x) (s + x) y a (inl low)
        ∙ outside m d s x a (inl less)
        ∙ sym (outside m d s (x + y) a (inl less))
    | inr more ↦
        outside (with_copy m d s x) (d + x) (s + x) y a (inl low)
        ∙ inside m d s x a more low
        ∙ sym (inside m d s (x + y) a more (omega (arith, low)))
  ]
  | inr high ↦ elim (lt-cases a (d + x + y)) [
    | inl less ↦
        let same : s + x + (a - (d + x)) ≡ s + (a - d) = omega (arith, high) in
        inside (with_copy m d s x) (d + x) (s + x) y a high less
        ∙ ap (with_copy m d s x) same
        ∙ outside m d s x (s + (a - d)) (inr (omega (arith, high, order)))
        ∙ sym (inside m d s (x + y) a (omega (arith, high)) (omega (arith, less)))
    | inr more ↦
        outside (with_copy m d s x) (d + x) (s + x) y a (inr more)
        ∙ outside m d s x a (inr high)
        ∙ sym (outside m d s (x + y) a (inr (omega (arith, more))))
  ]
]

last_copied :
    (m : ℕ → ℕ) (d s x y a : ℕ)
    → s ≤ d
    → with_copy (with_copy m (d + x) (s + x) y) d s x a ≡ with_copy m d s (x + y) a
last_copied m d s x y a order = elim (lt-cases a (d + x)) [
  | inl low ↦ elim (lt-cases a d) [
    | inl less ↦
        outside (with_copy m (d + x) (s + x) y) d s x a (inl less)
        ∙ outside m (d + x) (s + x) y a (inl low)
        ∙ sym (outside m d s (x + y) a (inl less))
    | inr more ↦
        inside (with_copy m (d + x) (s + x) y) d s x a more low
        ∙ outside m (d + x) (s + x) y (s + (a - d)) (inl (omega (arith, low, more, order)))
        ∙ sym (inside m d s (x + y) a more (omega (arith, low)))
  ]
  | inr high ↦ elim (lt-cases a (d + x + y)) [
    | inl less ↦
        let same : s + x + (a - (d + x)) ≡ s + (a - d) = omega (arith, high) in
        outside (with_copy m (d + x) (s + x) y) d s x a (inr high)
        ∙ inside m (d + x) (s + x) y a high less
        ∙ ap m same
        ∙ sym (inside m d s (x + y) a (omega (arith, high)) (omega (arith, less)))
    | inr more ↦
        outside (with_copy m (d + x) (s + x) y) d s x a (inr high)
        ∙ outside m (d + x) (s + x) y a (inr more)
        ∙ sym (outside m d s (x + y) a (inr (omega (arith, more))))
  ]
]

copy_up-with_copy :
    (width k i : ℕ) (m : ℕ → ℕ) (dst src a : ℕ)
    → dst ≤ src
    → copy_up width k i m dst src a ≡ with_copy m (dst + i * width) (src + i * width) (k * width) a
unfolding copy_up
copy_up-with_copy width zero i m dst src a order =
    sym (nothing_copied m (dst + i * width) (src + i * width) (0 * width) a (omega arith))
copy_up-with_copy width (suc k) i m dst src a order =
    let to : dst + (i + 1) * width ≡ dst + i * width + width = grind arith in
    let from : src + (i + 1) * width ≡ src + i * width + width = grind arith in
    let all : suc k * width ≡ width + k * width = grind arith in
    copy_up-with_copy width k (i + 1) (with_copy m (dst + i * width) (src + i * width) width) dst
      src a order
    ∙ rw (to, from, all)
        (first_copied m (dst + i * width) (src + i * width) width (k * width) a
          (omega (arith, order)))

copy_down-with_copy :
    (width i : ℕ) (m : ℕ → ℕ) (dst src a : ℕ)
    → src ≤ dst
    → copy_down width i m dst src a ≡ with_copy m dst src (i * width) a
unfolding copy_down
copy_down-with_copy width zero m dst src a order =
    sym (nothing_copied m dst src (0 * width) a (omega arith))
copy_down-with_copy width (suc i) m dst src a order =
    let all : suc i * width ≡ i * width + width = grind arith in
    copy_down-with_copy width i (with_copy m (dst + i * width) (src + i * width) width) dst src a
      order
    ∙ rw all (last_copied m dst src (i * width) width a order)

words_or_bytes :
    (dst src len : ℕ)
    → ((word_aligned dst src len ≡ true) × (len / 4 * 4 ≡ len)) ⊎ (word_aligned dst src len ≡ false)
words_or_bytes dst src len = elim (Bool-cases (word_aligned dst src len)) [
  | inl e ↦ inl (e, ground (arith, e))
  | inr e ↦ inr e
]

memcpy-with_copy :
    (m : ℕ → ℕ) (dst src len a : ℕ) → dst ≤ src → memcpy m dst src len a ≡ with_copy m dst src len a
unfolding memcpy
memcpy-with_copy m dst src len a order =
    let to : dst + 0 * 4 ≡ dst = omega arith in
    let from : src + 0 * 4 ≡ src = omega arith in
    let to1 : dst + 0 * 1 ≡ dst = omega arith in
    let from1 : src + 0 * 1 ≡ src = omega arith in
    let all : len * 1 ≡ len = omega arith in
    elim (words_or_bytes dst src len) [
      | inl (aligned, words) ↦
          rw aligned (copy_up-with_copy 4 (len / 4) 0 m dst src a order ∙ rw (to, from, words) refl)
      | inr bytes ↦
          rw bytes (copy_up-with_copy 1 len 0 m dst src a order ∙ rw (to1, from1, all) refl)
    ]

-- memmove, whether it copies up or down, by words or by bytes, and whether or not the buffers overlap,
-- leaves memory with the bytes that were in the one buffer also in the other, and no others changed.
pub memmove-with_copy :
    (m : ℕ → ℕ) (dst src len a : ℕ) → memmove m dst src len a ≡ with_copy m dst src len a
unfolding memmove memcpy
memmove-with_copy m dst src len a = elim (lt-cases dst src) [
  | inl up ↦ rw (lt→ltb dst src up) (memcpy-with_copy m dst src len a (omega (arith, up)))
  | inr down ↦
      let test : ltb dst src ≡ false = ground (arith, down) in
      let all : len * 1 ≡ len = omega arith in
      rw test (elim (words_or_bytes dst src len) [
        | inl (aligned, words) ↦
            rw aligned (copy_down-with_copy 4 (len / 4) m dst src a down ∙ rw words refl)
        | inr bytes ↦ rw bytes (copy_down-with_copy 1 len m dst src a down ∙ rw all refl)
      ])
]
