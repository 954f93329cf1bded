-- ===== src/Service/Addresses.antt =====
-- Addresses below the collection of runs, and their parts (api/lifecycle.go: submissionFrom,
-- handleRunItem).
use Prim.Native.Char.{code}
use Prim.Native.String.{◌++◌ as append}
use text.Mathlib.TextLemmas.{nil-append, cons-append, append-nil, cons≢nil, append_assoc}
use test_defense_validation.Base.{
  ◌≡◌, refl, Bool, false, ◌||◌, some, String, [], ◌∷◌, ◌==◌, arith, ap, sym, ◌∙◌, ◌≢◌, eq_iff,
}
use test_defense_validation.Text.Strings.{after_prefix, reverse_onto, reverse_text}
use test_defense_validation.Service.Routes.{
  drop_slashes, trim_slashes, split_slash, run_id_from_path, route, route_parts,
}
use test_defense_validation.Service.Submit.{runs_path}

-- Whether a text has a slash.
unfoldable pub has_slash : String → Bool
has_slash String.[] = false
has_slash (String.◌∷◌ c s) = code c == b'/' || has_slash s

after_prefix-append : (p s : String) → after_prefix p (append p s) ≡ some s
unfolding after_prefix
after_prefix-append String.[] s = ap some (nil-append s)
after_prefix-append (String.◌∷◌ c p) s =
    rw (cons-append c p s) (ground (arith, after_prefix-append p s))

reverse-reverse : (s t u : String) → reverse_onto (reverse_onto s t) u ≡ reverse_onto t (append s u)
unfolding reverse_onto
reverse-reverse String.[] t u = ap (reverse_onto t) (sym (nil-append u))
reverse-reverse (String.◌∷◌ c s) t u = rw (cons-append c s u) (reverse-reverse s (String.◌∷◌ c t) u)

reverse-append : (s u t : String) → reverse_onto (append s u) t ≡ reverse_onto u (reverse_onto s t)
unfolding reverse_onto
reverse-append String.[] u t = ap (λ v. reverse_onto v t) (nil-append u)
reverse-append (String.◌∷◌ c s) u t = rw (cons-append c s u) (reverse-append s u (String.◌∷◌ c t))

reverse_slash : (s t : String) → has_slash (reverse_onto s t) ≡ (has_slash s || has_slash t)
unfolding reverse_onto has_slash
reverse_slash String.[] t = refl
reverse_slash (String.◌∷◌ c s) t = ground (arith, reverse_slash s (String.◌∷◌ c t))

drop_slashes_kept : (s : String) → has_slash s ≡ false → drop_slashes s ≡ s
unfolding drop_slashes has_slash
drop_slashes_kept String.[] h = refl
drop_slashes_kept (String.◌∷◌ c s) h = ground arith

split_slash_kept : (s : String) → has_slash s ≡ false → split_slash s ≡ s ∷ []
unfolding split_slash has_slash
split_slash_kept String.[] h = refl
split_slash_kept (String.◌∷◌ c s) h = ground (arith, split_slash_kept s)

slash-append : (u : String) → append "/" u ≡ String.◌∷◌ "/" u
slash-append u = cons-append "/" "" u ∙ ap (String.◌∷◌ "/") (nil-append u)

split_slash-append :
    (s u : String)
    → has_slash s ≡ false
    → split_slash (append s (String.◌∷◌ "/" u)) ≡ s ∷ split_slash u
unfolding split_slash has_slash
split_slash-append String.[] u h = ap split_slash (nil-append (String.◌∷◌ "/" u))
split_slash-append (String.◌∷◌ c s) u h =
    rw (cons-append c s (String.◌∷◌ "/" u)) (ground (arith, split_slash-append s u))

-- A text that neither begins nor ends with a slash is kept by the trimming.
trim_slashes_kept : (s : String) → has_slash s ≡ false → trim_slashes s ≡ s
unfolding reverse_onto has_slash
trim_slashes_kept s h =
    let back : has_slash (reverse_onto s "") ≡ false = ground (arith, reverse_slash s "") in
    ap (λ t. reverse_text (drop_slashes (reverse_text t))) (drop_slashes_kept s h)
    ∙ ap reverse_text (drop_slashes_kept (reverse_onto s "") back)
    ∙ reverse-reverse s "" ""
    ∙ append-nil s

drop_slashes-append :
    (s u : String) → has_slash s ≡ false → s ≢ "" → drop_slashes (append s u) ≡ append s u
unfolding drop_slashes has_slash
drop_slashes-append String.[] u h n = absurd (n refl)
drop_slashes-append (String.◌∷◌ c s) u h n = rw (cons-append c s u) (ground arith)

-- A run id before a part that ends without a slash.
trim_slashes-append :
    (s u : String)
    → has_slash s ≡ false
    → s ≢ ""
    → ((t : String) → drop_slashes (reverse_onto u t) ≡ reverse_onto u t)
    → trim_slashes (append s u) ≡ append s u
unfolding reverse_onto
trim_slashes-append s u h n ends =
    ap (λ t. reverse_text (drop_slashes (reverse_text t))) (drop_slashes-append s u h n)
    ∙ ap (λ t. reverse_text (drop_slashes t)) (reverse-append s u "")
    ∙ ap reverse_text (ends (reverse_onto s ""))
    ∙ reverse-reverse u (reverse_onto s "") ""
    ∙ reverse-reverse s "" (append u "")
    ∙ ap (append s) (append-nil u)

below_runs :
    (rest : String)
    → trim_slashes rest ≡ rest
    → run_id_from_path (append runs_path (append "/" rest)) runs_path ≡ rest
unfolding run_id_from_path
below_runs rest h =
    rw
      (
        ← append_assoc runs_path "/" rest,
        run_id_from_path,
        after_prefix-append (append runs_path "/") rest,
      )
      h

append_filled : (s u : String) → s ≢ "" → append s u ≢ ""
append_filled String.[] u n e = n refl
append_filled (String.◌∷◌ c s) u n e = cons≢nil (sym (cons-append c s u) ∙ e)

-- A run id that is one part of a path.
abbrev pub IsPart : String → Type 0
IsPart id = (has_slash id ≡ false) × (id ≢ "")

pub route_status :
    (method id : String)
    → IsPart id
    → route method (append runs_path (append "/" id)) ≡ route_parts method (id ∷ [])
unfolding route
route_status method id (plain, filled) =
    rw (below_runs id (trim_slashes_kept id plain), split_slash_kept id plain)
      (ground (arith, eq_iff id "", filled))

pub route_part :
    (method id part : String)
    → IsPart id
    → has_slash part ≡ false
    → ((t : String)
        → drop_slashes (reverse_onto (append "/" part) t) ≡ reverse_onto (append "/" part) t)
    → route method (append runs_path (append "/" (append id (append "/" part))))
      ≡ route_parts method (id ∷ part ∷ [])
unfolding route
route_part method id part (plain, filled) whole ends =
    let path = append id (append "/" part) in
    let parts : split_slash path ≡ id ∷ part ∷ [] =
      ap (λ t. split_slash (append id t)) (slash-append part)
      ∙ split_slash-append id part plain
      ∙ ap (λ t. id ∷ t) (split_slash_kept part whole) in
    rw (below_runs path (trim_slashes-append id (append "/" part) plain filled ends), parts)
      (ground (arith, eq_iff path "", append_filled id (append "/" part) filled))
