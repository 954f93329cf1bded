-- ===== src/Shared/Unit/Complete.antt =====
-- What an application unit that reads back consists of (api/shared_contract_v2.go:
-- sharedV2ApplicationUnit).
use Prim.Native.Char.{Char}
use test_defense_validation.Base.{
  suc, ◌+◌, ◌≡◌, ◌≤◌, inl, inr, refl, true, false, some, String, eq_iff, List, [], ◌∷◌, length,
  arith, ok, Option-cases, Bool-cases, ap,
}
use test_defense_validation.Payload.Rules.{contains}
use test_defense_validation.Outcome.{CandidateSpec}
use test_defense_validation.Shared.{take_one}
use test_defense_validation.Shared.Sets.{count, take_one-count, take_one-length, take_one-some}
use test_defense_validation.Shared.Unit.{
  SharedRuleDefinition, SharedRuleDocument, SharedCarrierBinding, SharedCarrierDocument, UnitBundle,
  AppliedApplicationUnit, rule_key, carrier_key, index_bindings, all_bound, checked_unit, unit_spec,
  reads_back,
}

abbrev pub rule_keys : (Char → Char) → List SharedRuleDefinition → List String
rule_keys other [] = []
rule_keys other (r ∷ rs) = rule_key other r ∷ rule_keys other rs

abbrev pub carrier_keys : (Char → Char) → List SharedCarrierBinding → List String
carrier_keys other [] = []
carrier_keys other (b ∷ bs) = carrier_key other b ∷ carrier_keys other bs

-- No text stands twice in a list.
abbrev pub IsDistinct : List String → Type 0
IsDistinct ks = (w : String) → count w ks ≤ 1

contains-count : (w : String) (ks : List String) → contains w ks ≡ true → 1 ≤ count w ks
contains-count w [] h = cc
contains-count w (k ∷ ks) h = ground (arith, contains-count w ks, eq_iff k w)

absent-count : (w : String) (ks : List String) → contains w ks ≡ false → count w ks ≡ 0
absent-count w [] h = refl
absent-count w (k ∷ ks) h = ground (arith, absent-count w ks, eq_iff k w)

index_bindings_sound :
    (other : Char → Char) (seen : List String) (bs : List SharedCarrierBinding) (ks : List String)
    (w : String)
    → index_bindings other seen bs ≡ some ks
    → count w seen ≤ 1
    → (count w ks ≡ count w seen + count w (carrier_keys other bs)) × (count w ks ≤ 1)
unfolding index_bindings
index_bindings_sound other seen [] ks w h d =
    let same : seen ≡ ks = cc in rw (← same) (omega arith, d)
index_bindings_sound other seen (b ∷ bs) ks w h d =
    elim (Bool-cases (contains (carrier_key other b) seen)) [
      | inl again ↦ absurd (ground (arith, again))
      | inr new ↦
          let (s, m) =
            index_bindings_sound other (carrier_key other b ∷ seen) bs ks w (ground (arith, new)) (
              ground (
                arith,
                absent-count (carrier_key other b) seen new,
                eq_iff (carrier_key other b) w,
              )) in
          (omega (arith, s), m)
    ]

all_bound_sound :
    (other : Char → Char) (ks : List String) (rs : List SharedRuleDefinition) (w : String)
    → all_bound other ks rs ≡ true
    → 1 ≤ count w (rule_keys other rs)
    → 1 ≤ count w ks
unfolding all_bound
all_bound_sound other ks [] w h m = absurd (omega arith)
all_bound_sound other ks (r ∷ rs) w h m = ground (
  arith,
  all_bound_sound other ks rs w,
  contains-count (rule_key other r) ks,
  eq_iff (rule_key other r) w,
)

pub counts_eq_of_length :
    (vs ks : List String)
    → ((w : String) → count w vs ≤ count w ks)
    → length vs ≡ length ks
    → (w : String) → count w vs ≡ count w ks
counts_eq_of_length [] [] h n w = refl
counts_eq_of_length [] (k ∷ ks) h n w = absurd (omega arith)
counts_eq_of_length (v ∷ vs) ks h n w = elim (Option-cases (take_one v ks)) [
  | inl missing ↦ absurd (ground (arith, h v, take_one-some v ks missing, eq_iff v v))
  | inr (rest, e) ↦ omega (
    arith,
    take_one-count v ks rest w e,
    counts_eq_of_length vs rest (λ u. omega (arith, h u, take_one-count v ks rest u e))
        (omega (arith, take_one-length v ks rest e)) w,
  )
]

pub rule_keys-length :
    (other : Char → Char) (rs : List SharedRuleDefinition) → length (rule_keys other rs) ≡ length rs
rule_keys-length other [] = refl
rule_keys-length other (r ∷ rs) = ap suc (rule_keys-length other rs)

pub carrier_keys-length :
    (other : Char → Char) (bs : List SharedCarrierBinding)
    → length (carrier_keys other bs) ≡ length bs
carrier_keys-length other [] = refl
carrier_keys-length other (b ∷ bs) = ap suc (carrier_keys-length other bs)

-- What the checks on the two documents say.
abbrev pub FitsTogether : (Char → Char) → SharedRuleDocument → SharedCarrierDocument → Type 0
FitsTogether other main carriers =
    (main.action ≡ "block")
    × (main.rule_set_id ≡ carriers.rule_set_id)
    × (length main.rules ≡ length carriers.carrier_bindings)
    × IsDistinct (carrier_keys other carriers.carrier_bindings)
    × ((w : String)
        → 1 ≤ count w (rule_keys other main.rules)
        → 1 ≤ count w (carrier_keys other carriers.carrier_bindings))

pub checked_unit_sound :
    (other : Char → Char) (b : UnitBundle) (main : SharedRuleDocument) (bytes : String)
    (carriers : SharedCarrierDocument) (ids : List String) (cand : CandidateSpec)
    (applied : AppliedApplicationUnit)
    → checked_unit other b main bytes carriers ids ≡ ok (cand, applied)
    → FitsTogether other main carriers × (cand ≡ unit_spec b main bytes)
unfolding checked_unit reads_back
checked_unit_sound other b main bytes carriers ids cand applied h =
    elim (Option-cases (index_bindings other [] carriers.carrier_bindings)) [
      | inl again ↦ absurd (ground (arith, again))
      | inr (ks, e) ↦
          let bound : all_bound other ks main.rules ≡ true = ground (arith, e) in
          (
            (
              ground (arith, e, eq_iff main.action "block"),
              ground (arith, e, eq_iff main.rule_set_id carriers.rule_set_id),
              ground (arith, e),
              λ w.
                  let (s, m) =
                    index_bindings_sound other [] carriers.carrier_bindings ks w e (omega arith) in
                  omega (arith, s, m),
              λ w named.
                  let (s, m) =
                    index_bindings_sound other [] carriers.carrier_bindings ks w e (omega arith) in
                  omega (arith, s, all_bound_sound other ks main.rules w bound named),
            ),
            ground (arith, e),
          )
    ]
