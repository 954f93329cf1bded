-- ===== src/Callback/Headers.antt =====
-- The callback headers of a submission (api/callback.go: callbackMetadataFromHeaders,
-- callbackHostAllowed).
use test_defense_validation.Base.{
  ℕ, Bool, true, false, not, ◌||◌, Option, none, some, List, [], ◌∷◌, ◌++◌, map, if◌then◌else◌,
  ◌==◌, ◌+◌, Result, ok, err,
}
use test_defense_validation.Text.{codes, trim_space, eq_codes}

pub record CallbackMetadata : Type 0 where
  pub url : List ℕ
  pub workflow_id : List ℕ
  pub signal : List ℕ

-- What is read of a net/url.URL. `host` is Host, `hostname` is Hostname(), `user` is `User != nil`.
pub record Url : Type 0 where
  pub scheme : List ℕ
  pub host : List ℕ
  pub hostname : List ℕ
  pub user : Bool
  pub fragment : List ℕ

-- The codes of the LifecycleError; the two details of invalid_callback_url are kept apart.
pub data HeaderError : Type 0 where
  invalid_callback_headers invalid_callback_url fragment_in_url callback_host_not_allowed
        invalid_callback_signal :
      HeaderError

abbrev pub is_empty : List ℕ → Bool
is_empty [] = true
is_empty (c ∷ cs) = false

abbrev pub callback_signal : List ℕ
callback_signal = codes "janus.capability-completion.v1"

-- The loop that counts the headers that are present.
unfoldable pub present : List (List ℕ) → ℕ
present [] = 0
present (v ∷ vs) = let n = present vs in if is_empty v then n else n + 1

-- strings.Split at one character: `field` is what the current field has so far.
unfoldable pub split : ℕ → List ℕ → List ℕ → List (List ℕ)
split sep field [] = field ∷ []
split sep field (c ∷ cs) =
    let next = split sep [] cs in
    let longer = split sep (field ++ c ∷ []) cs in if c == sep then field ∷ next else longer

-- `fold` takes a character to the least of those that simple case folding identifies with it
-- (unicode.SimpleFold), so that strings.EqualFold compares the folded texts.
module _ (fold : ℕ → ℕ) where
  unfoldable pub equal_fold : List ℕ → List ℕ → Bool
  unfolding eq_codes
  equal_fold a b = eq_codes (map fold a) (map fold b)

  unfoldable pub any_candidate : List ℕ → List (List ℕ) → Bool
  unfolding equal_fold trim_space
  any_candidate host [] = false
  any_candidate host (c ∷ cs) = equal_fold (trim_space c) host || any_candidate host cs

  unfoldable pub callback_host_allowed : List ℕ → List ℕ → Bool
  unfolding trim_space split any_candidate
  callback_host_allowed host configured =
      if is_empty (trim_space configured)
      then true
      else any_candidate host (split b',' [] (trim_space configured))

  -- `parse` is url.Parse. The three texts are what Get returns for the headers.
  unfoldable pub callback_metadata :
      (List ℕ → Option Url)
      → List ℕ
      → List ℕ
      → List ℕ
      → List ℕ
      → Result HeaderError (Option CallbackMetadata)
  unfolding trim_space present callback_host_allowed eq_codes
  callback_metadata parse url_header workflow_header signal_header allowed =
      let url = trim_space url_header in
      let workflow = trim_space workflow_header in
      let signal = trim_space signal_header in
      let n = present (url ∷ workflow ∷ signal ∷ []) in
      if n == 0
      then ok none
      else if not (n == 3)
      then err invalid_callback_headers
      else elim (parse url) [
        | none ↦ err invalid_callback_url
        | some u ↦
            if not (eq_codes u.scheme (codes "https")) || is_empty u.host || u.user
            then err invalid_callback_url
            else if not (is_empty u.fragment)
            then err fragment_in_url
            else if not (callback_host_allowed u.hostname allowed)
            then err callback_host_not_allowed
            else if not (eq_codes signal callback_signal)
            then err invalid_callback_signal
            else ok (some (record { url = url; workflow_id = workflow; signal = signal }))
      ]
