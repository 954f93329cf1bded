-- ===== src/Shared/Sets.antt =====
-- What the tests on lists of texts decide (api/shared_contract_v2.go: sameStringSetLocal,
-- checkedRefs).
use test_defense_validation.Base.{
  ℕ, ◌+◌, ◌≡◌, ◌↔◌, inl, inr, refl, true, none, some, String, str_eq, eq_iff, List, [], ◌∷◌,
  if◌then◌else◌, length, arith, Option-cases, ap,
}
use test_defense_validation.Shared.{take_one, take_all, same_string_set}

abbrev pub count : String → List String → ℕ
count v [] = 0
count v (w ∷ ws) = (if str_eq w v then 1 else 0) + count v ws

pub take_one-count :
    (v : String) (seen rest : List String) (w : String)
    → take_one v seen ≡ some rest
    → count w seen ≡ count w (v ∷ rest)
unfolding take_one
take_one-count v [] rest w h = cc
take_one-count v (x ∷ xs) rest w h = elim (Option-cases (take_one v xs)) [
  | inl missing ↦ ground (arith, eq_iff x v, missing)
  | inr (ys, e) ↦ ground (arith, eq_iff x v, e, take_one-count v xs ys w e)
]

pub take_one-length :
    (v : String) (seen rest : List String)
    → take_one v seen ≡ some rest
    → length seen ≡ length rest + 1
unfolding take_one
take_one-length v [] rest h = cc
take_one-length v (x ∷ xs) rest h = elim (Option-cases (take_one v xs)) [
  | inl missing ↦ ground (arith, missing)
  | inr (ys, e) ↦ ground (arith, e, take_one-length v xs ys e)
]

pub take_one-some : (v : String) (seen : List String) → take_one v seen ≡ none → count v seen ≡ 0
unfolding take_one
take_one-some v [] h = refl
take_one-some v (x ∷ xs) h = elim (Option-cases (take_one v xs)) [
  | inl missing ↦ ground (arith, missing, take_one-some v xs missing)
  | inr (ys, e) ↦ absurd (ground (arith, e))
]

take_all_sound :
    (seen vs : List String)
    → length seen ≡ length vs
    → take_all seen vs ≡ true
    → (w : String) → count w seen ≡ count w vs
unfolding take_all
take_all_sound [] [] n h w = refl
take_all_sound (x ∷ xs) [] n h w = absurd (omega arith)
take_all_sound seen (v ∷ vs) n h w = elim (Option-cases (take_one v seen)) [
  | inl missing ↦ absurd (ground (arith, missing))
  | inr (rest, e) ↦ omega (
    arith,
    take_one-count v seen rest w e,
    take_all_sound rest vs (omega (arith, take_one-length v seen rest e)) (ground (arith, e)) w,
  )
]

-- No text is counted: the list is empty.
count_none : (seen : List String) → ((w : String) → count w seen ≡ 0) → seen ≡ []
count_none [] h = refl
count_none (x ∷ xs) h = absurd (ground (arith, h x, eq_iff x x))

take_all_complete :
    (seen vs : List String)
    → ((w : String) → count w seen ≡ count w vs)
    → (take_all seen vs ≡ true) × (length seen ≡ length vs)
unfolding take_all
take_all_complete seen [] h = (refl, ap length (count_none seen h))
take_all_complete seen (v ∷ vs) h = elim (Option-cases (take_one v seen)) [
  | inl missing ↦ absurd (ground (arith, h v, take_one-some v seen missing, eq_iff v v))
  | inr (rest, e) ↦
      let (t, n) =
        take_all_complete rest vs (λ w. omega (arith, h w, take_one-count v seen rest w e)) in
      (ground (arith, e, t), omega (arith, n, take_one-length v seen rest e))
]

-- sameStringSetLocal holds exactly of two lists that hold each text as often.
pub same_string_set_iff :
    (a b : List String) → (same_string_set a b ≡ true) ↔ ((w : String) → count w a ≡ count w b)
unfolding same_string_set
same_string_set_iff a b = (
  λ h w. take_all_sound a b (ground arith) (ground arith) w,
  λ h. let (t, n) = take_all_complete a b h in ground (arith, t, n),
)
