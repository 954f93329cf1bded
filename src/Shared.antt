-- ===== src/Shared.antt =====
-- The shared contract (api/shared_contract_v2.go): typed references, and sets of texts.
pub mod Sets
pub mod Coverage
pub mod Unit
pub mod Execute
use test_defense_validation.Base.{
  ℕ, Bool, true, false, not, ◌&&◌, ◌||◌, Option, none, some, String, str_eq, List, [], ◌∷◌,
  if◌then◌else◌, ◌==◌, length, Result, ok, err, ◌+◌, is_some,
}
use test_defense_validation.Payload.Rules.{contains}

pub record SharedTypedRef : Type 0 where
  pub kind : String
  pub scope : String
  pub id : String

unfoldable pub ref_ids : List SharedTypedRef → List String
ref_ids [] = []
ref_ids (r ∷ rs) = r.id ∷ ref_ids rs

-- seen[v]--, where `seen` holds each text as often as the map counts it; `none` is a count below 0.
unfoldable pub take_one : String → List String → Option (List String)
take_one v [] = none
take_one v (w ∷ ws) =
    if str_eq w v
    then some ws
    else elim (take_one v ws) [ none ↦ none | some rest ↦ some (w ∷ rest) ]

unfoldable pub take_all : List String → List String → Bool
unfolding take_one
take_all seen [] = true
take_all seen (v ∷ vs) = elim (take_one v seen) [ none ↦ false | some rest ↦ take_all rest vs ]

unfoldable pub same_string_set : List String → List String → Bool
unfolding take_all
same_string_set a b = length a == length b && take_all a b

pub data RefError : Type 0 where
  kind_or_scope_differs invented_or_duplicated : RefError

-- The references of one kind and scope to what an index holds, each once.
unfoldable pub checked_from :
    List String
    → String
    → String
    → (String → Bool)
    → List SharedTypedRef
    → Result RefError (List String)
checked_from seen kind scope known [] = ok []
checked_from seen kind scope known (r ∷ rs) =
    let rest = checked_from (r.id ∷ seen) kind scope known rs in
    if not (str_eq r.kind kind) || not (str_eq r.scope scope)
    then err kind_or_scope_differs
    else if not (known r.id) || contains r.id seen
    then err invented_or_duplicated
    else elim rest [ err e ↦ err e | ok ids ↦ ok (r.id ∷ ids) ]

unfoldable pub checked_refs :
    String → String → (String → Bool) → List SharedTypedRef → Result RefError (List String)
unfolding checked_from
checked_refs kind scope known rs = checked_from [] kind scope known rs

unfoldable pub intersects : List String → List String → Bool
intersects [] b = false
intersects (k ∷ ks) b = contains k b || intersects ks b

pub data IsIn {ℓ} {A : Type ℓ} (a : A) : List A → Type ℓ where
  first : {as' : List A} → IsIn a (a ∷ as')
  later : {x : A} {as' : List A} → IsIn a as' → IsIn a (x ∷ as')
