-- ===== src/Query/Texts/Trimming.antt =====
-- Trimming a text with white space around it.
use mathlib.Core.List.{reverse-append, reverse-reverse}
use qonduit.Common.{
  ◌<◌, ◌≡◌, refl, ap, ◌∙◌, [], ◌∷◌, ◌++◌, reverse, All, All-reverse, true, false, length, arith,
}
use qonduit.Bytes.{Bytes}
use qonduit.Query.Texts.{is_whitespace, trim_start, trim}

trim_start-blanks :
    (blanks s : Bytes)
    → All (λ c. is_whitespace c ≡ true) blanks
    → trim_start (blanks ++ s) ≡ trim_start s
unfolding trim_start
trim_start-blanks [] s h = refl
trim_start-blanks (c ∷ cs) s (b, bs) = rw b (trim_start-blanks cs s bs)

trim_start-text :
    (s rest : Bytes)
    → 0 < length s
    → All (λ c. is_whitespace c ≡ false) s
    → trim_start (s ++ rest) ≡ s ++ rest
unfolding trim_start
trim_start-text [] rest some_text h = absurd (omega arith)
trim_start-text (c ∷ cs) rest some_text (b, bs) = rw b refl

trim_start_lem : (s : Bytes) → All (λ c. is_whitespace c ≡ false) s → trim_start s ≡ s
unfolding trim_start
trim_start_lem [] h = refl
trim_start_lem (c ∷ cs) (b, bs) = rw b refl

-- White space around a text without white space is left away.
pub trim-around :
    (before s after : Bytes)
    → 0 < length s
    → All (λ c. is_whitespace c ≡ false) s
    → All (λ c. is_whitespace c ≡ true) before
    → All (λ c. is_whitespace c ≡ true) after
    → trim (before ++ (s ++ after)) ≡ s
unfolding trim
trim-around before s after some_text text blank blank' =
    let front : trim_start (before ++ (s ++ after)) ≡ s ++ after =
      trim_start-blanks before (s ++ after) blank ∙ trim_start-text s after some_text text in
    let back : trim_start (reverse (s ++ after)) ≡ reverse s =
      ap trim_start (reverse-append s after)
      ∙ trim_start-blanks (reverse after) (reverse s) (All-reverse _ after blank')
      ∙ trim_start_lem (reverse s) (All-reverse _ s text) in
    rw (front, back) (reverse-reverse s)
