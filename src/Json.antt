-- ===== src/Json.antt =====
-- JSON values as the code holds them, map[string]any and []any, and what it reads of them
-- (api/executor_locator.go: stringValue, hasExactFields, stringArrayValue, utf16Less, writeRFC8785;
-- api/shared_contract_v2.go: mapValue, anySlice, stringSlice, resolveSharedJSONPointer).
pub mod Canonical
pub mod Order
pub mod Reordered
use Prim.Native.Char.{code}
use test_defense_validation.Base.{
  ℕ, ◌+◌, ◌-◌, ◌/◌, ◌%◌, Bool, true, false, not, ◌&&◌, ◌||◌, Option, none, some, String, str_eq,
  List, [], ◌∷◌, ◌++◌, ltb, ◌==◌, if◌then◌else◌, length, is_some,
}
use test_defense_validation.Text.{is_blank}
use test_defense_validation.Text.Strings.{concat}

-- A nil and JSON's null are one value. A number is its literal. An object's keys are distinct.
mutual
  pub data Fields : Type 0 where
    no_fields : Fields
    field : String → Value → Fields → Fields

  pub data Elements : Type 0 where
    no_elements : Elements
    element : Value → Elements → Elements

  pub data Value : Type 0 where
    null : Value
    text : String → Value
    numeral : String → Value
    boolean : Bool → Value
    object : Fields → Value
    array : Elements → Value

unfoldable pub member : String → Fields → Option Value
member k no_fields = none
member k (field j v fs) = if str_eq j k then some v else member k fs

-- m[k], which is nil where k is absent.
unfoldable pub at : Fields → String → Value
unfolding member
at fs k = elim (member k fs) [ none ↦ null | some v ↦ v ]

unfoldable pub string_value : Value → String
string_value (text s) = s
string_value null = ""
string_value (boolean b) = ""
string_value (numeral n) = ""
string_value (array xs) = ""
string_value (object fs) = ""

unfoldable pub map_value : Value → Fields
map_value (object fs) = fs
map_value null = no_fields
map_value (boolean b) = no_fields
map_value (numeral n) = no_fields
map_value (text s) = no_fields
map_value (array xs) = no_fields

unfoldable pub to_list : Elements → List Value
to_list no_elements = []
to_list (element v xs) = v ∷ to_list xs

unfoldable pub any_slice : Value → List Value
unfolding to_list
any_slice (array xs) = to_list xs
any_slice null = []
any_slice (boolean b) = []
any_slice (numeral n) = []
any_slice (text s) = []
any_slice (object fs) = []

-- The texts among the items.
unfoldable pub texts : Elements → List String
texts no_elements = []
texts (element (text s) xs) = s ∷ texts xs
texts (element null xs) = texts xs
texts (element (boolean b) xs) = texts xs
texts (element (numeral n) xs) = texts xs
texts (element (array ys) xs) = texts xs
texts (element (object fs) xs) = texts xs

-- stringArrayValue: all items are texts that are not blank.
unfoldable pub string_array : Elements → Option (List String)
string_array no_elements = some []
string_array (element (text s) xs) =
    if is_blank s then none else elim (string_array xs) [ none ↦ none | some ss ↦ some (s ∷ ss) ]
string_array (element null xs) = none
string_array (element (boolean b) xs) = none
string_array (element (numeral n) xs) = none
string_array (element (array ys) xs) = none
string_array (element (object fs) xs) = none

unfoldable pub string_array_value : Value → Option (List String)
unfolding string_array
string_array_value (array xs) = string_array xs
string_array_value null = none
string_array_value (boolean b) = none
string_array_value (numeral n) = none
string_array_value (text s) = none
string_array_value (object fs) = none

unfoldable pub count_fields : Fields → ℕ
count_fields no_fields = 0
count_fields (field k v fs) = count_fields fs + 1

unfoldable pub has_all : Fields → List String → Bool
unfolding member
has_all document [] = true
has_all document (k ∷ ks) = is_some (member k document) && has_all document ks

unfoldable pub has_exact_fields : Fields → List String → Bool
unfolding count_fields has_all
has_exact_fields document fields = count_fields document == length fields && has_all document fields

-- utf16.Encode([]rune(s)).
unfoldable pub units : String → List ℕ
units String.[] = []
units (String.◌∷◌ c s) =
    (if ltb (code c) 0x10000
      then code c ∷ []
      else (0xd800 + (code c - 0x10000) / 0x400) ∷ (0xdc00 + (code c - 0x10000) % 0x400) ∷ [])
    ++ units s

unfoldable pub less : List ℕ → List ℕ → Bool
less [] [] = false
less [] (b ∷ bs) = true
less (a ∷ as') [] = false
less (a ∷ as') (b ∷ bs) = if a == b then less as' bs else ltb a b

unfoldable pub utf16_less : String → String → Bool
unfolding less units
utf16_less s t = less (units s) (units t)

-- sort.Slice by the keys.
unfoldable pub insert_pair : String × String → List (String × String) → List (String × String)
unfolding utf16_less
insert_pair p [] = p ∷ []
insert_pair p (q ∷ qs) = if utf16_less p.0 q.0 then p ∷ q ∷ qs else q ∷ insert_pair p qs

unfoldable pub sort_pairs : List (String × String) → List (String × String)
unfolding insert_pair
sort_pairs [] = []
sort_pairs (p ∷ ps) = insert_pair p (sort_pairs ps)

-- The texts, separated by commas.
unfoldable pub commas : List String → String
commas [] = ""
commas (s ∷ []) = s
commas (s ∷ t ∷ ss) = concat (s ∷ "," ∷ commas (t ∷ ss) ∷ [])

-- "key":value for each member; the key is quoted.
abbrev pub members : (String → String) → List (String × String) → List String
members quote [] = []
members quote ((k, v) ∷ ps) = concat (quote k ∷ ":" ∷ v ∷ []) ∷ members quote ps

abbrev pub both {ℓ} : {A : Type ℓ} → Option A → Option (List A) → Option (List A)
both none rest = none
both (some a) none = none
both (some a) (some as') = some (a ∷ as')

abbrev pub keyed :
    String → Option String → Option (List (String × String)) → Option (List (String × String))
keyed k none rest = none
keyed k (some v) none = none
keyed k (some v) (some ps) = some ((k, v) ∷ ps)
