-- ===== src/Text.antt =====
-- What the source uses of Go's strings package, over code points: TrimSpace, ToUpper, ToLower, Join
-- and equality. The letters that Go's case mappings take to ASCII letters are kept apart; other
-- letters outside ASCII stay as they are, which no comparison with an ASCII word tells.
pub mod Strings
use Prim.Native.Char.{code}
use test_defense_validation.Base.{
  ℕ, ◌+◌, ◌-◌, ◌≡◌, refl, Bool, true, false, ◌&&◌, ◌||◌, String, List, [], ◌∷◌, ◌++◌, map, arith,
  leb, ◌==◌, if◌then◌else◌,
}
use mathlib.Core.List.{reverse}

abbrev pub codes : String → List ℕ
codes String.[] = []
codes (String.◌∷◌ ch rest) = code ch ∷ codes rest

-- unicode.IsSpace.
unfoldable pub is_space : ℕ → Bool
is_space c =
    leb 9 c && leb c 13
    || c == 32
    || c == 0x85
    || c == 0xa0
    || c == 0x1680
    || leb 0x2000 c && leb c 0x200a
    || c == 0x2028
    || c == 0x2029
    || c == 0x202f
    || c == 0x205f
    || c == 0x3000

unfoldable pub drop_spaces : List ℕ → List ℕ
unfolding is_space
drop_spaces [] = []
drop_spaces (c ∷ cs) = if is_space c then drop_spaces cs else c ∷ cs

unfoldable pub trim_space : List ℕ → List ℕ
unfolding drop_spaces
trim_space cs = reverse (drop_spaces (reverse (drop_spaces cs)))

-- unicode.ToUpper and ToLower: U+0131 and U+017F, U+0130 and U+212A map to ASCII letters.
unfoldable pub upper : ℕ → ℕ
upper c =
    if leb b'a' c && leb c b'z'
    then c - 32
    else if c == 0x131
    then b'I'
    else if c == 0x17f
    then b'S'
    else c

unfoldable pub lower : ℕ → ℕ
lower c =
    if leb b'A' c && leb c b'Z'
    then c + 32
    else if c == 0x130
    then b'i'
    else if c == 0x212a
    then b'k'
    else c

unfoldable pub eq_codes : List ℕ → List ℕ → Bool
eq_codes [] [] = true
eq_codes (a ∷ as') (b ∷ bs) = a == b && eq_codes as' bs
eq_codes _ _ = false

pub eq_codes_sound : (xs ys : List ℕ) → eq_codes xs ys ≡ true → xs ≡ ys
unfolding eq_codes
eq_codes_sound [] [] h = refl
eq_codes_sound [] (y ∷ ys) h = cc
eq_codes_sound (x ∷ xs) [] h = cc
eq_codes_sound (x ∷ xs) (y ∷ ys) h = ground (arith, eq_codes_sound xs ys)

pub eq_codes_refl : (xs : List ℕ) → eq_codes xs xs ≡ true
unfolding eq_codes
eq_codes_refl [] = refl
eq_codes_refl (x ∷ xs) = ground (arith, eq_codes_refl xs)

-- strings.TrimSpace(s) == "".
unfoldable pub is_blank : String → Bool
unfolding trim_space eq_codes
is_blank s = eq_codes (trim_space (codes s)) []

-- strings.ToUpper(strings.TrimSpace(s)), strings.ToLower(strings.TrimSpace(s)).
unfoldable pub upper_word : String → List ℕ
unfolding trim_space upper
upper_word s = map upper (trim_space (codes s))

unfoldable pub lower_word : String → List ℕ
unfolding trim_space lower
lower_word s = map lower (trim_space (codes s))

-- strings.Join.
unfoldable pub join : List ℕ → List (List ℕ) → List ℕ
join sep [] = []
join sep (x ∷ []) = x
join sep (x ∷ y ∷ ys) = x ++ (sep ++ join sep (y ∷ ys))
