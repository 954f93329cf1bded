-- ===== src/Json/Order.antt =====
-- The order of keys by UTF-16 code units, and sorting by it.
use test_defense_validation.Base.{
  ℕ, ◌≡◌, ◌≢◌, ◌⊎◌, inl, inr, refl, true, false, String, List, [], ◌∷◌, arith, Bool-cases, ap, sym,
  ltb, ◌==◌,
}
use test_defense_validation.Json.{less, units, utf16_less, insert_pair, sort_pairs}

less_trans : (xs ys zs : List ℕ) → less xs ys ≡ true → less ys zs ≡ true → less xs zs ≡ true
unfolding less
less_trans [] [] zs h k = cc
less_trans [] (y ∷ ys) [] h k = cc
less_trans [] (y ∷ ys) (z ∷ zs) h k = refl
less_trans (x ∷ xs) [] zs h k = cc
less_trans (x ∷ xs) (y ∷ ys) [] h k = cc
less_trans (x ∷ xs) (y ∷ ys) (z ∷ zs) h k = ground (arith, less_trans xs ys zs)

-- Of two different lists of units exactly one is less.
less_total :
    (xs ys : List ℕ)
    → xs ≢ ys
    → ((less xs ys ≡ true) × (less ys xs ≡ false)) ⊎ ((less xs ys ≡ false) × (less ys xs ≡ true))
unfolding less
less_total [] [] n = absurd (n refl)
less_total [] (y ∷ ys) n = inl (refl, refl)
less_total (x ∷ xs) [] n = inr (refl, refl)
less_total (x ∷ xs) (y ∷ ys) n = elim (Bool-cases (x == y)) [
  | inl e ↦
      let same : x ≡ y = ground arith in
      elim (less_total xs ys (λ k. n (cc))) [
        | inl h ↦ inl (ground arith, ground arith)
        | inr h ↦ inr (ground arith, ground arith)
      ]
  | inr e ↦ elim (Bool-cases (ltb x y)) [
    | inl h ↦ inl (ground arith, ground arith)
    | inr h ↦ inr (ground arith, ground arith)
  ]
]

insert_base :
    (p q : String × String) (l : List (String × String))
    → utf16_less p.0 q.0 ≡ true
    → utf16_less q.0 p.0 ≡ false
    → insert_pair p (insert_pair q l) ≡ insert_pair q (insert_pair p l)
unfolding insert_pair
insert_base p q [] h k = ground arith
insert_base p q (r ∷ l) h k =
    ground (arith, insert_base p q l h k, less_trans (units p.0) (units q.0) (units r.0))

insert_comm :
    (p q : String × String) (l : List (String × String))
    → units p.0 ≢ units q.0
    → insert_pair p (insert_pair q l) ≡ insert_pair q (insert_pair p l)
unfolding utf16_less
insert_comm p q l n = elim (less_total (units p.0) (units q.0) n) [
  | inl (h, k) ↦ insert_base p q l h k
  | inr (h, k) ↦ sym (insert_base q p l k h)
]

pub sort_swap :
    (p q : String × String) (l : List (String × String))
    → units p.0 ≢ units q.0
    → sort_pairs (p ∷ q ∷ l) ≡ sort_pairs (q ∷ p ∷ l)
unfolding sort_pairs
sort_swap p q l n = insert_comm p q (sort_pairs l) n

pub sort_cons :
    (p : String × String) (l m : List (String × String))
    → sort_pairs l ≡ sort_pairs m
    → sort_pairs (p ∷ l) ≡ sort_pairs (p ∷ m)
unfolding sort_pairs
sort_cons p l m e = ap (insert_pair p) e
