-- ===== src/Payload/Action.antt =====
-- The single policy action of a rule set (api/janus_payload.go: policyActionFor).
use test_defense_validation.Base.{
  ◌≡◌, true, ◌||◌, String, List, [], ◌∷◌, All, if◌then◌else◌, arith, Option, none, some, ok, ◌∙◌,
}
use test_defense_validation.Text.{eq_codes, eq_codes_sound, lower_word, codes}
use test_defense_validation.Payload.Rules.{AkamaiAlternative, policy_action_for, agree}

-- What one alternative asks for.
abbrev pub asked_action : AkamaiAlternative → Option String
asked_action a =
    let word = lower_word a.source_action in
    if eq_codes word (codes "block") || eq_codes word (codes "deny")
    then some "deny"
    else if eq_codes word (codes "alert") || eq_codes word (codes "monitor")
    then some "alert"
    else none

agree-asked :
    (base : AkamaiAlternative) (others : List AkamaiAlternative)
    → agree (lower_word base.source_action) others ≡ true
    → All (λ a. asked_action a ≡ asked_action base) others
agree-asked base [] h = tt
agree-asked base (a ∷ rest) h = (same, agree-asked base rest (ground arith))
  where
    same : asked_action a ≡ asked_action base
    same =
        rw (
          eq_codes_sound (lower_word a.source_action) (lower_word base.source_action)
            (ground arith))

asked_base :
    (base : AkamaiAlternative) (others : List AkamaiAlternative) (action : String)
    → policy_action_for base others ≡ ok action
    → (asked_action base ≡ some action) × (agree (lower_word base.source_action) others ≡ true)
unfolding policy_action_for
asked_base base others action h = ground arith

All-map :
    (action : Option String) (base : Option String) (others : List AkamaiAlternative)
    → base ≡ action
    → All (λ a. asked_action a ≡ base) others
    → All (λ a. asked_action a ≡ action) others
All-map action base [] e h = tt
All-map action base (a ∷ rest) e h = (h.0 ∙ e, All-map action base rest e h.1)

-- The action that is chosen is the one that every alternative asks for.
pub policy_action_agreed :
    (base : AkamaiAlternative) (others : List AkamaiAlternative) (action : String)
    → policy_action_for base others ≡ ok action
    → All (λ a. asked_action a ≡ some action) (base ∷ others)
policy_action_agreed base others action h =
    let (e, same) = asked_base base others action h in
    (e, All-map (some action) (asked_action base) others e (agree-asked base others same))
