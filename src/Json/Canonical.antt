-- ===== src/Json/Canonical.antt =====
-- The RFC 8785 form of a value (api/executor_locator.go: marshalRFC8785, writeRFC8785). A value is
-- written before its object is sorted, since an error anywhere is an error of the whole.
use test_defense_validation.Base.{true, false, Option, none, some, String, List, [], ◌∷◌}
use test_defense_validation.Text.Strings.{concat}
use test_defense_validation.Json.{
  Value, Elements, Fields, null, boolean, numeral, text, array, object, no_elements, element,
  no_fields, field, commas, sort_pairs, members, both, keyed,
}

abbrev pub bracketed : Option (List String) → Option String
bracketed none = none
bracketed (some ts) = some (concat ("[" ∷ commas ts ∷ "]" ∷ []))

abbrev pub braced : (String → String) → Option (List (String × String)) → Option String
braced quote none = none
braced quote (some ps) = some (concat ("{" ∷ commas (members quote (sort_pairs ps)) ∷ "}" ∷ []))

-- The canonical literal of a number, if it has one, and the quoted form of a text.
module _ (number : String → Option String) (quote : String → String) where
  unfoldable mutual
    pub write_value : Value → Option String
    write_value null = some "null"
    write_value (boolean b) = some (elim b [ true ↦ "true" | false ↦ "false" ])
    write_value (numeral n) = number n
    write_value (text s) = some (quote s)
    write_value (array xs) = bracketed (write_items xs)
    write_value (object fs) = braced quote (write_fields fs)

    pub write_items : Elements → Option (List String)
    write_items no_elements = some []
    write_items (element v xs) = both (write_value v) (write_items xs)

    pub write_fields : Fields → Option (List (String × String))
    write_fields no_fields = some []
    write_fields (field k v fs) = keyed k (write_value v) (write_fields fs)
