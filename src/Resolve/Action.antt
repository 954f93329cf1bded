-- ===== src/Resolve/Action.antt =====
-- The action that a rule's text asks for (api/executor_upstream.go: deriveRuleAction, lastQuoted and
-- the pattern reRuleAction), over code points.
use mathlib.Core.List.{reverse}
use test_defense_validation.Base.{
  ℕ, ◌≡◌, refl, true, false, Bool, not, ◌&&◌, ◌||◌, Option, none, some, String, List, [], ◌∷◌, map,
  leb, ◌==◌, if◌then◌else◌,
}
use test_defense_validation.Text.{codes, lower, is_space, eq_codes, drop_spaces}
use test_defense_validation.Text.Strings.{starts}

-- What precedes the first space, and the first of strings.Fields, if there is one.
unfoldable pub word : List ℕ → List ℕ
unfolding is_space
word [] = []
word (c ∷ s) = if is_space c then [] else c ∷ word s

unfoldable pub first_field : List ℕ → List ℕ
unfolding drop_spaces word
first_field s = word (drop_spaces s)

-- What follows the first occurrence of a text (strings.Index).
unfoldable pub drop : List ℕ → List ℕ → List ℕ
drop [] s = s
drop (c ∷ p) [] = []
drop (c ∷ p) (d ∷ s) = drop p s

unfoldable pub after_first : List ℕ → List ℕ → Option (List ℕ)
unfolding starts drop
after_first p [] = if starts p [] then some [] else none
after_first p (c ∷ s) = if starts p (c ∷ s) then some (drop p (c ∷ s)) else after_first p s

-- What precedes the first quotation mark, and what follows it.
unfoldable pub split_quote : List ℕ → Option (List ℕ × List ℕ)
split_quote [] = none
split_quote (c ∷ s) =
    if c == b'"'
    then some ([], s)
    else elim (split_quote s) [ none ↦ none | some (before, after) ↦ some (c ∷ before, after) ]

-- From the end: the last mark, and the last one before it.
unfoldable pub last_quoted : List ℕ → Option (List ℕ)
unfolding split_quote
last_quoted s = elim (split_quote (reverse s)) [
  | none ↦ none
  | some (_, before) ↦ elim (split_quote before) [
    | none ↦ none
    | some (segment, _) ↦ some (reverse segment)
  ]
]

-- \w of Go's regular expressions.
unfoldable pub is_word : ℕ → Bool
is_word c =
    leb b'0' c && leb c b'9' || leb b'A' c && leb c b'Z' || c == b'_' || leb b'a' c && leb c b'z'

unfoldable pub ends_here : List ℕ → Bool
unfolding is_word
ends_here [] = true
ends_here (c ∷ s) = not (is_word c)

-- The alternatives in the order of the pattern; a word that fits must end at a boundary.
abbrev pub action_words : List String
action_words = "deny" ∷ "drop" ∷ "block" ∷ "pass" ∷ "allow" ∷ "reject" ∷ "accept" ∷ []

unfoldable pub word_at : List String → List ℕ → Option String
unfolding starts ends_here drop
word_at [] s = none
word_at (w ∷ ws) s =
    if starts (codes w) s && ends_here (drop (codes w) s) then some w else word_at ws s

-- FindString: the leftmost match; `inside` tells whether a word character precedes.
unfoldable pub find_action : Bool → List ℕ → Option String
unfolding word_at is_word
find_action inside [] = none
find_action true (c ∷ s) = find_action (is_word c) s
find_action false (c ∷ s) = elim (word_at action_words (c ∷ s)) [
  | some w ↦ some w
  | none ↦ find_action (is_word c) s
]

-- The target of an iptables rule.
unfoldable pub target_action : List ℕ → Option String
unfolding after_first first_field eq_codes
target_action low = elim (after_first (codes "-j ") low) [
  | none ↦ none
  | some rest ↦
      if eq_codes (first_field rest) (codes "drop")
      then some "drop"
      else if eq_codes (first_field rest) (codes "reject")
      then some "reject"
      else if eq_codes (first_field rest) (codes "accept")
      then some "accept"
      else none
]

unfoldable pub quoted_action : List ℕ → Option String
unfolding last_quoted find_action
quoted_action rule = elim (last_quoted rule) [
  | none ↦ none
  | some segment ↦ find_action false (map lower segment)
]

unfoldable pub derive_rule_action : String → String
unfolding target_action quoted_action find_action lower
derive_rule_action rule = elim (target_action (map lower (codes rule))) [
  | some w ↦ w
  | none ↦ elim (quoted_action (codes rule)) [
    | some w ↦ w
    | none ↦ elim (find_action false (map lower (codes rule))) [ some w ↦ w | none ↦ "" ]
  ]
]

derived_tests :
    (derive_rule_action "SecRule ARGS \"@rx x\" \"id:1,phase:2,deny,status:403\"" ≡ "deny")
    × (derive_rule_action "iptables -A INPUT -j DROP" ≡ "drop")
    × (derive_rule_action "passed, or allow" ≡ "allow")
    × (derive_rule_action "blocked" ≡ "")
unfolding derive_rule_action
derived_tests = (refl, refl, refl, refl)
