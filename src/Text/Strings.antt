-- ===== src/Text/Strings.antt =====
-- Go's strings package where its result is a text again: TrimSpace, ToLower, HasPrefix, TrimPrefix,
-- TrimSuffix and ReplaceAll of one character, character by character.
use Prim.Native.Char.{Char, char, code, IsScalar, nul}
use Prim.Native.Nat.{compare, Ordering}
use mathlib.Core.Logic.{dite}
use Prim.Native.String.{◌++◌ as append, ◌∷◌}
use native.Mathlib.Decide.{dec_lt}
use test_defense_validation.Base.{
  ℕ, ◌<◌, ◌≡◌, Option, none, some, String, ◌==◌, arith, if◌then◌else◌, List, Bool, true, false,
  ◌&&◌, ◌||◌, [], ◌∷◌, not, ltb,
}
use test_defense_validation.Text.{is_space, lower}

unfoldable pub reverse_onto : String → String → String
reverse_onto String.[] t = t
reverse_onto (String.◌∷◌ c s) t = reverse_onto s (String.◌∷◌ c t)

abbrev pub reverse_text : String → String
reverse_text s = reverse_onto s String.[]

unfoldable pub drop_spaces_text : String → String
unfolding is_space
drop_spaces_text String.[] = String.[]
drop_spaces_text (String.◌∷◌ c s) = if is_space (code c) then drop_spaces_text s else String.◌∷◌ c s

unfoldable pub trim : String → String
unfolding drop_spaces_text reverse_onto
trim s = reverse_text (drop_spaces_text (reverse_text (drop_spaces_text s)))

below-IsScalar : (n : ℕ) → n < 128 → IsScalar n
below-IsScalar n h = rw (below n h) tt
  where
    below : (m : ℕ) → m < 128 → compare m 55296 ≡ Ordering.lt
    below m k = ground arith

-- A character below 128.
unfoldable pub chr : ℕ → Char
unfolding dec_lt below-IsScalar
chr n = dite (dec_lt n 128) (λ h. char n (below-IsScalar n h)) (λ _. nul)

unfoldable pub to_lower : String → String
unfolding lower chr
to_lower String.[] = String.[]
to_lower (String.◌∷◌ c s) =
    String.◌∷◌ (if lower (code c) == code c then c else chr (lower (code c))) (to_lower s)

-- strings.ToLower, where unicode.ToLower on a character outside ASCII is an argument.
unfoldable pub to_lower_by : (Char → Char) → String → String
unfolding lower chr
to_lower_by other String.[] = String.[]
to_lower_by other (String.◌∷◌ c s) =
    String.◌∷◌
      (if not (ltb (code c) 128)
        then other c
        else if lower (code c) == code c
        then c
        else chr (lower (code c)))
      (to_lower_by other s)

-- What follows a prefix.
unfoldable pub after_prefix : String → String → Option String
after_prefix String.[] s = some s
after_prefix (String.◌∷◌ c p) String.[] = none
after_prefix (String.◌∷◌ c p) (String.◌∷◌ d s) = if code c == code d then after_prefix p s else none

unfoldable pub trim_prefix : String → String → String
unfolding after_prefix
trim_prefix s p = elim (after_prefix p s) [ none ↦ s | some rest ↦ rest ]

unfoldable pub trim_suffix : String → String → String
unfolding after_prefix reverse_onto
trim_suffix s p = elim (after_prefix (reverse_text p) (reverse_text s)) [
  | none ↦ s
  | some rest ↦ reverse_text rest
]

-- The pieces of a text, one after the other.
abbrev pub concat : List String → String
concat [] = ""
concat (s ∷ ss) = append s (concat ss)

-- Whether a text, as code points, begins with another.
unfoldable pub starts : List ℕ → List ℕ → Bool
starts [] s = true
starts (c ∷ p) [] = false
starts (c ∷ p) (d ∷ s) = c == d && starts p s

-- strings.Contains.
unfoldable pub occurs : List ℕ → List ℕ → Bool
unfolding starts
occurs p [] = starts p []
occurs p (c ∷ s) = starts p (c ∷ s) || occurs p s
