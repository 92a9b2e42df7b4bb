-- ===== src/Hubble/Conversion.antt =====
-- internal/hubble/converter.go and convertFlow: which drops count as drops by a policy, and which
-- labels a pod gets.
use Prim.Native.String.{◌++◌, ◌∷◌}
use text.Mathlib.TextLemmas.{nil-append, cons-append, append-nil}
use nightjar.Prelude.{
  ℕ, String, ◌≡◌, ap, refl, ◌||◌, not, ◌∙◌, ◌↔◌, Bool, true, false, Option, none, some, List, [],
  ◌∷◌, map, arith, if◌then◌else◌, nat_eqb_iff, ◌==◌, string_eq, ◌∈◌, All, concat,
}
use nightjar.Prelude.Strings.{
  contains_char, after_char, before_char, after_char-append, before_char-append,
}
use nightjar.Prelude.Dict.{Dict, lookup, insert, lookup-insert}
use nightjar.Hubble.Flow.{
  FlowDrop, is_policy_drop, drop_reason_policy, drop_reason_policy_auth, drop_reason_no_mapping,
  drop_reason_invalid_packet, drop_reason_ttl_exceeded, drop_reason_proxy_redirect,
  drop_reason_unknown,
}
use nightjar.Hubble.Converter.{
  Codes, Flow, parse_drop_reason, convert_flow, strip_source, put_label, parse_labels_into,
  parse_labels,
}

-- The reasons that Cilium has for a denial by a policy.
abbrev pub policy_codes : Codes → List ℕ
policy_codes codes =
    codes.policy_denied ∷ codes.policy_deny ∷ codes.auth_required ∷ codes.invalid_identity ∷ []

-- Only the first two of the branches give a reason of a policy.
by_branch :
    (a b c d e f : Bool)
    → is_policy_drop (
        if a
        then drop_reason_policy
        else if b
        then drop_reason_policy_auth
        else if c
        then drop_reason_no_mapping
        else if d
        then drop_reason_invalid_packet
        else if e
        then drop_reason_ttl_exceeded
        else if f
        then drop_reason_proxy_redirect
        else drop_reason_unknown)
      ≡ (a || b)
unfolding is_policy_drop
by_branch true b c d e f = refl
by_branch false true c d e f = refl
by_branch false false true d e f = refl
by_branch false false false true e f = refl
by_branch false false false false true f = refl
by_branch false false false false false true = refl
by_branch false false false false false false = refl

is_policy_drop-parse_drop_reason :
    (codes : Codes) (n : ℕ)
    → (is_policy_drop (parse_drop_reason codes n) ≡ true) ↔ (n ∈ policy_codes codes)
unfolding parse_drop_reason
is_policy_drop-parse_drop_reason codes n =
    rw (parse_drop_reason, by_branch)
      (ground (
        arith,
        nat_eqb_iff n codes.policy_denied,
        nat_eqb_iff n codes.policy_deny,
        nat_eqb_iff n codes.auth_required,
        nat_eqb_iff n codes.invalid_identity,
      ))

converted :
    (b : Bool) (x d : FlowDrop) → (if not b then none else some x) ≡ some d → (b ≡ true) × (d ≡ x)
converted b x d h = ground arith

-- Where a flow is converted, it was dropped, and the drop counts as one by a policy exactly if its
-- reason is a denial, a missing authentication or an invalid identity.
pub convert_flow-is_policy_drop :
    (codes : Codes) (now : ℕ) (f : Flow) (d : FlowDrop)
    → convert_flow codes now f ≡ some d
    → (f.dropped ≡ true)
      × ((is_policy_drop d.drop_reason ≡ true) ↔ (f.drop_reason_desc ∈ policy_codes codes))
unfolding convert_flow
convert_flow-is_policy_drop codes now f d h =
    let (dropped, same) = converted f.dropped _ d h in
    (dropped, rw (same) (is_policy_drop-parse_drop_reason codes f.drop_reason_desc))

-- A label of the Cilium API, whose text is `source:key=value`.
pub record Label : Type 0 where
  pub source : String
  pub key : String
  pub value : String

abbrev pub text_of : Label → String
text_of l = concat (l.source ∷ ":" ∷ l.key ∷ "=" ∷ l.value ∷ [])

-- The source has no colon and the key no equals sign.
abbrev pub IsPlain : Label → Type 0
IsPlain l = (contains_char 58 l.source ≡ false) × (contains_char 61 l.key ≡ false)

-- The value of the last label with the key.
abbrev pub last_value : String → List Label → Option String → Option String
last_value k [] o = o
last_value k (l ∷ ls) o = last_value k ls (if l.key == k then some l.value else o)

colon : (t : String) → ":" ++ t ≡ ":" ∷ t
colon t = cons-append ":" "" t ∙ ap (λ u. ":" ∷ u) (nil-append t)

equals : (t : String) → "=" ++ t ≡ "=" ∷ t
equals t = cons-append "=" "" t ∙ ap (λ u. "=" ∷ u) (nil-append t)

after_source :
    (l : Label) → IsPlain l → strip_source (text_of l) ≡ l.key ++ ("=" ++ (l.value ++ ""))
unfolding strip_source
after_source l p =
    rw
      (
        strip_source,
        colon,
        after_char-append 58 ":" refl l.source (l.key ++ ("=" ++ (l.value ++ ""))) p.0,
      )
      refl

before_equals : (k v : String) → contains_char 61 k ≡ false → before_char 61 (k ++ ("=" ++ v)) ≡ k
before_equals k v h = rw (equals v) (before_char-append 61 "=" refl k v h)

after_equals :
    (k v : String) → contains_char 61 k ≡ false → after_char 61 (k ++ ("=" ++ v)) ≡ some v
after_equals k v h = rw (equals v) (after_char-append 61 "=" refl k v h)

put_label_lem :
    (l : Label) (m : Dict String String)
    → IsPlain l
    → put_label (l.key ++ ("=" ++ (l.value ++ ""))) m ≡ insert l.key l.value m
unfolding put_label
put_label_lem l m p =
    rw
      (
        put_label,
        after_equals l.key (l.value ++ "") p.1,
        before_equals l.key (l.value ++ "") p.1,
        append-nil,
      )
      refl

lookup-parse_labels_into :
    (k : String) (ls : List Label) (m : Dict String String)
    → All IsPlain ls
    → lookup k (parse_labels_into (map text_of ls) m) ≡ last_value k ls (lookup k m)
unfolding parse_labels_into
lookup-parse_labels_into k [] m p = refl
lookup-parse_labels_into k (l ∷ ls) m (plain, p) =
    rw (parse_labels_into, after_source l plain, put_label_lem l m plain)
      (lookup-parse_labels_into k ls (insert l.key l.value m) p
        ∙ ap (last_value k ls) (lookup-insert l.key k l.value m))

-- From the texts of labels whose source has no colon and whose key no equals sign, `parseLabels`
-- makes a map that gives each key the value of its last label, and knows no other key.
pub lookup-parse_labels :
    (k : String) (ls : List Label)
    → All IsPlain ls
    → lookup k (parse_labels (map text_of ls)) ≡ last_value k ls none
unfolding parse_labels lookup
lookup-parse_labels k ls p = lookup-parse_labels_into k ls [] p
