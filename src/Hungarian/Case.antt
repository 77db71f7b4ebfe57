-- ===== src/Hungarian/Case.antt =====
-- What `streamHungarianToUnderbarCaps` of src/ancestry.c yields.
use fsm_lang.Base.{
  ℕ, ◌≡◌, refl, Bool, true, false, ◌&&◌, ◌||◌, [], ◌∷◌, ◌++◌, arith, ◌==◌, Text, codes, is_lower,
  is_upper, is_alpha, ◌⊎◌, inl, inr, ap,
}
use fsm_lang.Hungarian.{underbar, round, stream_loop, stream_hungarian_to_underbar_caps}

-- Letters and underbars, of which most names are made.
abbrev pub IsLetters : Text → Type 0
IsLetters [] = Unit {0}
IsLetters (c ∷ s) = ((is_alpha c || c == underbar) ≡ true) × IsLetters s

abbrev pub has_lower : Text → Bool
has_lower [] = false
has_lower (c ∷ s) = is_lower c || has_lower s

has_lower-append : (s t : Text) → has_lower (s ++ t) ≡ (has_lower s || has_lower t)
has_lower-append [] t = refl
has_lower-append (c ∷ s) t = ground (arith, has_lower-append s t)

has_lower-round : (first : Bool) (k c : ℕ) → has_lower (round first k c).0 ≡ false
unfolding round
has_lower-round first k c = ground arith

has_lower-stream_loop :
    (first : Bool) (k : ℕ) (s : Text) → has_lower (stream_loop first k s) ≡ false
unfolding stream_loop
has_lower-stream_loop first k [] = refl
has_lower-stream_loop first k (c ∷ s) =
    let next = (round first k c).1 in
    rw (has_lower-append (round first k c).0 (stream_loop false next s), has_lower-round first k c)
      (has_lower-stream_loop false next s)

-- Capitals and underbars: what the change of case leaves alone.
abbrev all_caps : Text → Bool
all_caps [] = true
all_caps (c ∷ s) = (is_upper c || c == underbar) && all_caps s

all_caps-append : (s t : Text) → all_caps (s ++ t) ≡ (all_caps s && all_caps t)
all_caps-append [] t = refl
all_caps-append (c ∷ s) t = ground (arith, all_caps-append s t)

all_caps-round :
    (first : Bool) (k c : ℕ)
    → (is_alpha c || c == underbar) ≡ true
    → all_caps (round first k c).0 ≡ true
unfolding round
all_caps-round first k c h = ground arith

all_caps-stream_loop :
    (first : Bool) (k : ℕ) (s : Text) → IsLetters s → all_caps (stream_loop first k s) ≡ true
unfolding stream_loop
all_caps-stream_loop first k [] l = refl
all_caps-stream_loop first k (c ∷ s) (p, l) =
    let next = (round first k c).1 in
    rw (all_caps-append (round first k c).0 (stream_loop false next s), all_caps-round first k c p)
      (all_caps-stream_loop false next s l)

round_caps :
    (first : Bool) (k c : ℕ)
    → (is_upper c || c == underbar) ≡ true
    → (first ≡ true) ⊎ (k ≡ 1)
    → round first k c ≡ (c ∷ [], 1)
unfolding round
round_caps first k c h start = ground arith

stream_loop_caps :
    (first : Bool) (k : ℕ) (s : Text)
    → all_caps s ≡ true
    → (first ≡ true) ⊎ (k ≡ 1)
    → stream_loop first k s ≡ s
unfolding stream_loop
stream_loop_caps first k [] h start = refl
stream_loop_caps first k (c ∷ s) h start =
    rw (round_caps first k c (ground arith) start)
      (ap (λ t. c ∷ t) (stream_loop_caps false 1 s (ground arith) (inr refl)))

-- What `streamHungarianToUnderbarCaps` writes holds no small letter, whatever the string.
pub has_lower-stream_hungarian :
    (s : Text) → has_lower (stream_hungarian_to_underbar_caps s) ≡ false
unfolding stream_hungarian_to_underbar_caps
has_lower-stream_hungarian s = has_lower-stream_loop true 0 s

-- On a name of letters and underbars a second application of `streamHungarianToUnderbarCaps`
-- changes nothing.
pub stream_hungarian_idempotent :
    (s : Text)
    → IsLetters s
    → stream_hungarian_to_underbar_caps (stream_hungarian_to_underbar_caps s)
      ≡ stream_hungarian_to_underbar_caps s
unfolding stream_hungarian_to_underbar_caps
stream_hungarian_idempotent s l =
    stream_loop_caps true 0 (stream_loop true 0 s) (all_caps-stream_loop true 0 s l) (inl refl)

leading_underbar : stream_hungarian_to_underbar_caps (codes "_fooBar") ≡ codes "_FOO_BAR"
unfolding stream_hungarian_to_underbar_caps
leading_underbar = refl

doubled_caps : stream_hungarian_to_underbar_caps (codes "fooBAr") ≡ codes "FOO_BAR"
unfolding stream_hungarian_to_underbar_caps
doubled_caps = refl
