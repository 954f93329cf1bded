-- ===== src/Json/Reordered.antt =====
-- The canonical form and the order of members (api/executor_locator.go:
-- writeRFC8785).
use test_defense_validation.Base.{
  ◌≢◌, String, Option, List, ◌≡◌, some, ap, none, ◌∙◌, refl, ◌∷◌, [],
}
use test_defense_validation.Json.{
  Value, Elements, Fields, array, object, no_elements, element, no_fields, field, units, keyed,
  sort_pairs, both, concat, commas, members,
}
use test_defense_validation.Json.Canonical.{
  write_value, write_fields, write_items, braced, bracketed,
}
use test_defense_validation.Json.Order.{sort_cons, sort_swap}
use test_defense_validation.Text.Strings.{concat}

-- Two values that differ in the order of members only, at any depth.
mutual
  pub data Same : Value → Value → Type 0 where
    same : {v : Value} → Same v v
    items : {xs ys : Elements} → SameItems xs ys → Same (array xs) (array ys)
    fields : {fs gs : Fields} → SameFields fs gs → Same (object fs) (object gs)

  pub data SameItems : Elements → Elements → Type 0 where
    nil_items : SameItems no_elements no_elements
    cons_items :
        {v w : Value} {xs ys : Elements}
        → Same v w
        → SameItems xs ys
        → SameItems (element v xs) (element w ys)

  pub data SameFields : Fields → Fields → Type 0 where
    end_fields : SameFields no_fields no_fields
    keep :
        {k : String} {v w : Value} {fs gs : Fields}
        → Same v w
        → SameFields fs gs
        → SameFields (field k v fs) (field k w gs)
    swap :
        {k j : String} {v w : Value} {fs : Fields}
        → units k ≢ units j
        → SameFields (field k v (field j w fs)) (field j w (field k v fs))
    chain : {fs gs hs : Fields} → SameFields fs gs → SameFields gs hs → SameFields fs hs

abbrev sorted : Option (List (String × String)) → Option (List (String × String))
sorted none = none
sorted (some ps) = some (sort_pairs ps)

keyed_cons :
    (k : String) (t : Option String) (ps qs : Option (List (String × String)))
    → sorted ps ≡ sorted qs
    → sorted (keyed k t ps) ≡ sorted (keyed k t qs)
keyed_cons k none ps qs e = refl
keyed_cons k (some t) none none e = refl
keyed_cons k (some t) none (some qs) e = cc
keyed_cons k (some t) (some ps) none e = cc
keyed_cons k (some t) (some ps) (some qs) e = ap some (sort_cons (k, t) ps qs (cc))

keyed_swap :
    (k j : String) (t u : Option String) (ps : Option (List (String × String)))
    → units k ≢ units j
    → sorted (keyed k t (keyed j u ps)) ≡ sorted (keyed j u (keyed k t ps))
keyed_swap k j none none ps n = refl
keyed_swap k j none (some u) none n = refl
keyed_swap k j none (some u) (some ps) n = refl
keyed_swap k j (some t) none ps n = refl
keyed_swap k j (some t) (some u) none n = refl
keyed_swap k j (some t) (some u) (some ps) n = ap some (sort_swap (k, t) (j, u) ps n)

braced-sorted :
    (quote : String → String) (ps qs : Option (List (String × String)))
    → sorted ps ≡ sorted qs
    → braced quote ps ≡ braced quote qs
braced-sorted quote none none e = refl
braced-sorted quote none (some qs) e = cc
braced-sorted quote (some ps) none e = cc
braced-sorted quote (some ps) (some qs) e =
    let same : sort_pairs ps ≡ sort_pairs qs = cc in
    ap (λ l. some (concat ("{" ∷ commas (members quote l) ∷ "}" ∷ []))) same

module _ (number : String → Option String) (quote : String → String) where
  mutual
    unfolding write_value

    same_written :
        {v w : Value} → Same v w → write_value number quote v ≡ write_value number quote w
    same_written same = refl
    same_written (items s) = ap bracketed (items_written s)
    same_written (fields {fs} {gs} s) = braced-sorted quote _ _ (fields_written s)

    items_written :
        {xs ys : Elements}
        → SameItems xs ys
        → write_items number quote xs ≡ write_items number quote ys
    items_written nil_items = refl
    items_written (cons_items {v} {w} {xs} {ys} s r) =
        ap (both (write_value number quote v)) (items_written r)
        ∙ ap (λ t. both t (write_items number quote ys)) (same_written s)

    fields_written :
        {fs gs : Fields}
        → SameFields fs gs
        → sorted (write_fields number quote fs) ≡ sorted (write_fields number quote gs)
    fields_written end_fields = refl
    fields_written (keep {k} {v} {w} {fs} {gs} s r) =
        ap (λ t. sorted (keyed k t (write_fields number quote fs))) (same_written s)
        ∙ keyed_cons k (write_value number quote w) _ _ (fields_written r)
    fields_written (swap {k} {j} {v} {w} {fs} n) =
        keyed_swap k j (write_value number quote v) (write_value number quote w)
          (write_fields number quote fs) n
    fields_written (chain r s) = fields_written r ∙ fields_written s

  -- Values that differ in the order of members only have the same canonical form, or none.
  pub canonical_reordered :
      (v w : Value) → Same v w → write_value number quote v ≡ write_value number quote w
  canonical_reordered v w s = same_written s
