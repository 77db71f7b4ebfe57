-- ===== src/Hungarian.antt =====
-- The change of case of src/ancestry.c: `hungarianToUnderbarCaps`, which allocates its result, and
-- `streamHungarianToUnderbarCaps`, which writes to a stream.
pub mod Buffer
pub mod Case
use fsm_lang.Base.{
  ℕ, suc, ◌+◌, Bool, true, false, not, ◌&&◌, ◌||◌, Option, none, some, [], ◌∷◌, ◌++◌, arith, ltb,
  ◌==◌, if◌then◌else◌, length, u32, int_succ, int_to_size, Text, codes, is_alpha, to_upper,
  bit_0x20,
}

abbrev pub underbar : ℕ
underbar = b'_'

-- `isalpha(c) ? toupper(c) : c`
unfoldable pub cased : ℕ → ℕ
cased c = if is_alpha c then to_upper c else c

-- A character before which an underbar may go: not the first, and neither an underbar nor a
-- character with the bit 0x20.
abbrev pub capital : Bool → ℕ → Bool
capital first c = not (bit_0x20 c) && not (c == underbar) && not first

-- One round of either loop: the characters written, and the next value of `consecutive`.
unfoldable pub round : Bool → ℕ → ℕ → Text × ℕ
unfolding cased
round first consecutive c =
    if c == b'\\'
    then (underbar ∷ [], consecutive)
    else if capital first c
    then (if consecutive == 0 then (underbar ∷ cased c ∷ [], 1) else (cased c ∷ [], consecutive))
    else (cased c ∷ [], if bit_0x20 c then 0 else 1)

-- `first` says that the character is the first of the string.
unfoldable pub stream_loop : Bool → ℕ → Text → Text
unfolding round
stream_loop first consecutive [] = []
stream_loop first consecutive (c ∷ s) =
    let (out, next) = round first consecutive c in out ++ stream_loop false next s

-- `streamHungarianToUnderbarCaps`: what it writes.
unfoldable pub stream_hungarian_to_underbar_caps : Text → Text
unfolding stream_loop
stream_hungarian_to_underbar_caps s = stream_loop true 0 s

-- The loop that increases the `int i`; `none` is an overflow.
unfoldable pub extra_size : Text → ℕ → Option ℕ
extra_size [] i = some i
extra_size (c ∷ s) i = elim (if not (bit_0x20 c) then int_succ i else some i) [
  | none ↦ none
  | some j ↦ extra_size s j
]

-- The `int` that `hungarianToUnderbarCaps` asks memory for.
unfoldable pub buffer_size : Text → Option ℕ
unfolding extra_size
buffer_size s = extra_size s (u32 (length s + 1))

-- `*cp2++ = c`: nothing past the end of the allocated memory may be written.
unfoldable pub put : ℕ → Text → ℕ → Option Text
put size out c = if ltb (length out) size then some (out ++ c ∷ []) else none

unfoldable pub put_all : ℕ → Text → Text → Option Text
unfolding put
put_all size out [] = some out
put_all size out (c ∷ s) =
    let rest = λ (o : Text). put_all size o s in
    elim (put size out c) [ none ↦ none | some o ↦ rest o ]

-- The outcome of a function that allocates a string: NULL, the string, a write out of bounds, or an
-- `int` that overflows.
pub data Allocated : Type 0 where
  out_of_memory overrun overflow : Allocated
  text : Text → Allocated

unfoldable pub buffer_loop : ℕ → Bool → ℕ → Text → Text → Option Text
unfolding round put_all
buffer_loop size first consecutive out [] = some out
buffer_loop size first consecutive out (c ∷ s) =
    let (written, next) = round first consecutive c in
    elim (put_all size out written) [ none ↦ none | some o ↦ buffer_loop size false next o s ]

-- What is written to allocated memory, the terminator last.
unfoldable pub fill_buffer : ℕ → Text → Allocated
unfolding buffer_loop put
fill_buffer size s = elim (buffer_loop size true 0 [] s) [
  | none ↦ overrun
  | some out ↦ elim (put size out 0) [ none ↦ overrun | some _ ↦ text out ]
]

-- `hungarianToUnderbarCaps`; `memory` says whether `malloc` succeeds.
unfoldable pub hungarian_to_underbar_caps : Bool → Text → Allocated
unfolding buffer_size fill_buffer
hungarian_to_underbar_caps memory s = elim (buffer_size s) [
  | none ↦ overflow
  | some i ↦ if memory then fill_buffer (int_to_size i) s else out_of_memory
]
