-- ===== src/EventXref/Formats.antt =====
-- The choice of a format.
use mathlib.Core.Bool.{false≢true}
use fsm_lang.Base.{
  ◌≡◌, refl, ◌∙◌, ap, sym, true, false, ◌≢◌, ◌⊎◌, inl, inr, some, none, ◌∷◌, Text, text_eq,
  text_eq_refl, eq_of_text_eq, Bool-cases,
}
use fsm_lang.EventXref.{
  Format, json, csv, tab, xml, suffix, behind_dot, check_requested_xref_format,
}

-- Whether a format is asked for, as an equation of texts.
named :
    (f : Format) (fmt : Text) → text_eq fmt (behind_dot (suffix f)) ≡ true → suffix f ≡ b'.' ∷ fmt
named json fmt h =
    ap (λ (t : Text). b'.' ∷ t) (sym (eq_of_text_eq fmt (behind_dot (suffix json)) h))
named csv fmt h = ap (λ (t : Text). b'.' ∷ t) (sym (eq_of_text_eq fmt (behind_dot (suffix csv)) h))
named tab fmt h = ap (λ (t : Text). b'.' ∷ t) (sym (eq_of_text_eq fmt (behind_dot (suffix tab)) h))
named xml fmt h = ap (λ (t : Text). b'.' ∷ t) (sym (eq_of_text_eq fmt (behind_dot (suffix xml)) h))

unnamed :
    (f : Format) (fmt : Text) → text_eq fmt (behind_dot (suffix f)) ≡ false → suffix f ≢ b'.' ∷ fmt
unnamed f fmt h e =
    let same : behind_dot (suffix f) ≡ fmt = ap behind_dot e in
    false≢true (sym h ∙ ap (λ (t : Text). text_eq fmt t) same ∙ text_eq_refl fmt)

none_named :
    (fmt : Text)
    → text_eq fmt (behind_dot (suffix json)) ≡ false
    → text_eq fmt (behind_dot (suffix csv)) ≡ false
    → text_eq fmt (behind_dot (suffix tab)) ≡ false
    → text_eq fmt (behind_dot (suffix xml)) ≡ false
    → (f : Format) → suffix f ≢ b'.' ∷ fmt
none_named fmt a b c d json = unnamed json fmt a
none_named fmt a b c d csv = unnamed csv fmt b
none_named fmt a b c d tab = unnamed tab fmt c
none_named fmt a b c d xml = unnamed xml fmt d

-- `check_requested_xref_format` returns true and selects the writer and the suffix of the one
-- format whose name behind the dot was asked for; for any other text it returns false and leaves
-- both pointers at the NULL behind the last.
pub check_requested_xref_format-suffix :
    (fmt : Text)
    → ((f : Format) × (check_requested_xref_format fmt ≡ (true, some f)) × (suffix f ≡ b'.' ∷ fmt))
      ⊎ ((check_requested_xref_format fmt ≡ (false, none)) × ((f : Format) → suffix f ≢ b'.' ∷ fmt))
unfolding check_requested_xref_format
check_requested_xref_format-suffix fmt =
    elim (Bool-cases (text_eq fmt (behind_dot (suffix json)))) [
      | inl a ↦ inl (json, rw a refl, named json fmt a)
      | inr a ↦ elim (Bool-cases (text_eq fmt (behind_dot (suffix csv)))) [
        | inl b ↦ inl (csv, rw (a, b) refl, named csv fmt b)
        | inr b ↦ elim (Bool-cases (text_eq fmt (behind_dot (suffix tab)))) [
          | inl c ↦ inl (tab, rw (a, b, c) refl, named tab fmt c)
          | inr c ↦ elim (Bool-cases (text_eq fmt (behind_dot (suffix xml)))) [
            | inl d ↦ inl (xml, rw (a, b, c, d) refl, named xml fmt d)
            | inr d ↦ inr (rw (a, b, c, d) refl, none_named fmt a b c d)
          ]
        ]
      ]
    ]
