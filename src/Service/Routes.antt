-- ===== src/Service/Routes.antt =====
-- The routing of requests (api/lifecycle.go: handleRunsCollection, handleRunItem; api/main.go:
-- runIDFromPath).
use Prim.Native.Char.{Char, code}
use Prim.Native.String.{◌++◌ as append}
use test_defense_validation.Base.{
  ℕ, ◌&&◌, Option, none, some, String, str_eq, List, [], ◌∷◌, ◌==◌, if◌then◌else◌,
}
use test_defense_validation.Text.Strings.{after_prefix, reverse_onto, reverse_text}
use test_defense_validation.Ledger.Update.{Table}
use test_defense_validation.Outcome.{Codec, Completion}
use test_defense_validation.Service.Submit.{
  Incoming, Fresh, SubmitReply, error, handle_async_submit, Body, runs_path,
}
use test_defense_validation.Service.Items.{
  ItemReply, failed_with, not_found, handle_run_status, handle_run_result, handle_run_cancel,
}
use test_defense_validation.Ledger.Tables.{Fault}

-- strings.Trim(s, "/").
unfoldable pub drop_slashes : String → String
drop_slashes String.[] = String.[]
drop_slashes (String.◌∷◌ c s) = if code c == b'/' then drop_slashes s else String.◌∷◌ c s

abbrev pub trim_slashes : String → String
trim_slashes s = reverse_text (drop_slashes (reverse_text (drop_slashes s)))

unfoldable pub run_id_from_path : String → String → String
unfolding after_prefix drop_slashes reverse_onto
run_id_from_path path base = elim (after_prefix (append base "/") path) [
  | none ↦ ""
  | some rest ↦ trim_slashes rest
]

-- A character before the first part of a split.
abbrev pub begun : Char → List String → List String
begun c [] = String.◌∷◌ c String.[] ∷ []
begun c (part ∷ parts) = String.◌∷◌ c part ∷ parts

-- strings.Split(s, "/").
unfoldable pub split_slash : String → List String
split_slash String.[] = "" ∷ []
split_slash (String.◌∷◌ c s) =
    if code c == b'/' then "" ∷ split_slash s else begun c (split_slash s)

abbrev pub not_allowed : ItemReply
not_allowed = failed_with 405 (error "method_not_allowed" "Method not allowed")

-- What a request on one run asks for.
pub data Route : Type 0 where
  to_status : String → Route
  to_result : String → Route
  to_cancel : String → Route
  nowhere : Route
  unallowed : Route

unfoldable pub route_parts : String → List String → Route
route_parts method [] = nowhere
route_parts method (run_id ∷ []) = if str_eq method "GET" then to_status run_id else unallowed
route_parts method (run_id ∷ part ∷ []) =
    if str_eq part "result" && str_eq method "GET"
    then to_result run_id
    else if str_eq part "cancel" && str_eq method "POST"
    then to_cancel run_id
    else unallowed
route_parts method (run_id ∷ part ∷ other ∷ more) = nowhere

unfoldable pub route : String → String → Route
unfolding run_id_from_path split_slash route_parts
route method url =
    let path = run_id_from_path url runs_path in
    if str_eq path "" then nowhere else route_parts method (split_slash path)

-- `read` decodes the column completion, `view` is apiResultView.
module _ (read : String → Option Completion) (codec : Codec) (view : String → String) where
  unfoldable pub routed : ℕ → Route → Table → ItemReply × Table
  routed now (to_status id) t = (handle_run_status read id t, t)
  routed now (to_result id) t = (handle_run_result codec view id t, t)
  routed now (to_cancel id) t = handle_run_cancel codec now id t
  routed now nowhere t = (not_found, t)
  routed now unallowed t = (not_allowed, t)

  unfoldable pub handle_run_item : ℕ → String → String → Table → ItemReply × Table
  unfolding route routed
  handle_run_item now method url t = routed now (route method url) t

-- The answer on the collection: a submission's, or the list of all runs.
pub data CollectionReply : Type 0 where
  to_submission : SubmitReply → CollectionReply
  lists_runs : CollectionReply
  not_offered : CollectionReply

abbrev pub submitted_to : SubmitReply × Table → CollectionReply × Table
submitted_to (reply, t) = (to_submission reply, t)

unfoldable pub handle_runs_collection :
    (Body → List String)
    → (Body → Option (String × String))
    → String
    → Fault
    → Incoming
    → Fresh
    → Table
    → CollectionReply × Table
handle_runs_collection validate normalized method fault i f t =
    if str_eq method "POST"
    then submitted_to (handle_async_submit validate normalized fault i f t)
    else if str_eq method "GET"
    then (lists_runs, t)
    else (not_offered, t)
