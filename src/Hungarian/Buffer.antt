-- ===== src/Hungarian/Buffer.antt =====
-- The memory of `hungarianToUnderbarCaps` of src/ancestry.c.
use fsm_lang.Base.{
  ℕ, ◌+◌, ◌≤◌, ◌<◌, ◌≡◌, Bool, true, false, not, some, [], ◌∷◌, ◌++◌, append-nil, append_assoc,
  arith, ltb, if◌then◌else◌, length, length-append, lt→ltb, Text, bit_0x20, ◌∙◌, ap, refl, u32,
  int_succ, int_to_size, Bool-cases, inl, inr,
}
use fsm_lang.Hungarian.{
  round, stream_loop, stream_hungarian_to_underbar_caps, extra_size, buffer_size, put, put_all,
  fill_buffer, text, buffer_loop, hungarian_to_underbar_caps,
}

-- The characters for which the size is increased.
abbrev pub extra : Text → ℕ
extra [] = 0
extra (c ∷ s) = (if not (bit_0x20 c) then 1 else 0) + extra s

extra_size-extra :
    (s : Text) (i : ℕ) → i + extra s < 2147483648 → extra_size s i ≡ some (i + extra s)
unfolding extra_size
extra_size-extra [] i lt = ap some (omega arith)
extra_size-extra (c ∷ s) i lt = elim (Bool-cases (bit_0x20 c)) [
  | inl y ↦ rw (y, extra_size) (extra_size-extra s i (ground arith) ∙ ap some (omega arith))
  | inr n ↦
      let below : i + 1 + extra s < 2147483648 = ground arith in
      let next : int_succ i ≡ some (i + 1) = ground arith in
      rw (n, extra_size, next) (extra_size-extra s (i + 1) below ∙ ap some (omega arith))
]

-- The size that is asked for, where the `int` does not overflow.
buffer_size-extra :
    (s : Text) → length s + extra s < 2147483647 → buffer_size s ≡ some (length s + 1 + extra s)
unfolding buffer_size
buffer_size-extra s lt =
    let whole : u32 (length s + 1) ≡ length s + 1 = omega (arith, lt) in
    rw whole (extra_size-extra s (length s + 1) (omega (arith, lt)))

-- A round writes one character, and another only where the size was increased.
length-round :
    (first : Bool) (k c : ℕ) → length (round first k c).0 ≤ 1 + (if not (bit_0x20 c) then 1 else 0)
unfolding round
length-round first k c = ground arith

length-stream_loop :
    (first : Bool) (k : ℕ) (s : Text) → length (stream_loop first k s) ≤ length s + extra s
unfolding stream_loop
length-stream_loop first k [] = omega arith
length-stream_loop first k (c ∷ s) = omega (
  arith,
  length-append (round first k c).0 (stream_loop false (round first k c).1 s),
  length-round first k c,
  length-stream_loop false (round first k c).1 s,
)

put_all-cons :
    (size : ℕ) (out : Text) (c : ℕ) (s o : Text)
    → put size out c ≡ some o
    → put_all size out (c ∷ s) ≡ put_all size o s
unfolding put_all
put_all-cons size out c s o e = rw (e, put_all)

buffer_loop-cons :
    (size : ℕ) (first : Bool) (k : ℕ) (out : Text) (c : ℕ) (s o : Text)
    → put_all size out (round first k c).0 ≡ some o
    → buffer_loop size first k out (c ∷ s) ≡ buffer_loop size false (round first k c).1 o s
unfolding buffer_loop
buffer_loop-cons size first k out c s o e = rw (e, buffer_loop)

put_all-some :
    (size : ℕ) (out s : Text) → length out + length s ≤ size → put_all size out s ≡ some (out ++ s)
unfolding put_all put
put_all-some size out [] h = rw append-nil
put_all-some size out (c ∷ s) h =
    let room : ltb (length out) size ≡ true = lt→ltb _ _ (omega arith) in
    put_all-cons size out c s (out ++ c ∷ []) (rw room)
    ∙ (put_all-some size (out ++ c ∷ []) s (omega (arith, length-append out (c ∷ [])))
        ∙ rw (append_assoc out (c ∷ []) s))

buffer_loop-some :
    (size : ℕ) (first : Bool) (k : ℕ) (out s : Text)
    → length out + length (stream_loop first k s) ≤ size
    → buffer_loop size first k out s ≡ some (out ++ stream_loop first k s)
unfolding buffer_loop stream_loop
buffer_loop-some size first k out [] h = rw append-nil
buffer_loop-some size first k out (c ∷ s) h =
    let w = (round first k c).0 in
    let n = (round first k c).1 in
    let total = length-append w (stream_loop false n s) in
    buffer_loop-cons size first k out c s (out ++ w) (put_all-some size out w (omega arith))
    ∙ (buffer_loop-some size false n (out ++ w) s (omega (arith, length-append out w))
        ∙ rw (append_assoc out w (stream_loop false n s)))

fill_buffer-text :
    (size : ℕ) (s : Text)
    → length (stream_loop true 0 s) < size
    → fill_buffer size s ≡ text (stream_hungarian_to_underbar_caps s)
unfolding fill_buffer put stream_hungarian_to_underbar_caps
fill_buffer-text size s short =
    let room : ltb (length (stream_loop true 0 s)) size ≡ true = lt→ltb _ _ short in
    rw (fill_buffer, buffer_loop-some size true 0 [] s (omega (arith, short)), room) refl

-- When memory can be had and the size that the string needs, a terminator and an underbar for each
-- character without the bit 0x20 included, is below 2 ^ 31, `hungarianToUnderbarCaps` does not
-- overflow its `int`, writes inside the memory that it allocated, terminator included, and its
-- result is what `streamHungarianToUnderbarCaps` writes to a stream.
pub hungarian-eq-stream :
    (s : Text)
    → length s + extra s < 2147483647
    → hungarian_to_underbar_caps true s ≡ text (stream_hungarian_to_underbar_caps s)
unfolding hungarian_to_underbar_caps
hungarian-eq-stream s lt =
    let size : ℕ = length s + 1 + extra s in
    let same : int_to_size size ≡ size = rw (lt→ltb size 2147483648 (omega (arith, lt))) refl in
    let short : length (stream_loop true 0 s) < size = omega (arith, length-stream_loop true 0 s) in
    rw (hungarian_to_underbar_caps, buffer_size-extra s lt)
      (ap (λ (n : ℕ). fill_buffer n s) same ∙ fill_buffer-text size s short)
