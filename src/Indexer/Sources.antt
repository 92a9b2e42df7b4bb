-- ===== src/Indexer/Sources.antt =====
-- What `DeleteBySource` leaves in the map, and what it reports.
use nightjar.Prelude.{
  String, ◌≡◌, refl, Bool, false, not, Option, none, some, List, [], ◌∷◌, arith, eq_iff,
  if◌then◌else◌, ◌==◌, string_eq, any, map, Bool-cases, inl, inr,
}
use nightjar.Prelude.Dict.{
  Dict, HasDistinctKeys, lookup, erase, kept, lookup-erase, erase-HasDistinctKeys,
}
use nightjar.Types.{Constraint, GroupVersionResource, gvr_eq}
use nightjar.Indexer.{Indexer, uids_of_source, take_out, delete_by_source}

-- Is there a constraint, and does it come from the source?
abbrev pub from_source : GroupVersionResource → Option Constraint → Bool
from_source gvr none = false
from_source gvr (some c) = c.source == gvr

pub any-uids_of_source :
    (gvr : GroupVersionResource) (k : String) (m : Dict String Constraint)
    → HasDistinctKeys m
    → any (λ u. u == k) (uids_of_source gvr m) ≡ from_source gvr (lookup k m)
unfolding uids_of_source any lookup
any-uids_of_source gvr k [] h = refl
any-uids_of_source gvr k ((j, c) ∷ m) h = ground (arith, eq_iff j k, any-uids_of_source gvr k m h.1)

lookup-take_out :
    (k : String) (uids : List String) (m : Dict String Constraint)
    → lookup k (take_out uids m).0 ≡ (if any (λ u. u == k) uids then none else lookup k m)
unfolding take_out any
lookup-take_out k [] m = refl
lookup-take_out k (u ∷ us) m = ground (arith, lookup-erase u k m, lookup-take_out k us (erase u m))

take_out-HasDistinctKeys :
    (uids : List String) (m : Dict String Constraint)
    → HasDistinctKeys m
    → HasDistinctKeys (take_out uids m).0
unfolding take_out
take_out-HasDistinctKeys [] m h = h
take_out-HasDistinctKeys (u ∷ us) m h =
    take_out-HasDistinctKeys us (erase u m) (erase-HasDistinctKeys u m h)

-- Exactly the constraints of the source are gone.
pub lookup-delete_by_source :
    (gvr : GroupVersionResource) (k : String) (idx : Indexer)
    → HasDistinctKeys idx.by_uid
    → lookup k (delete_by_source gvr idx).0.by_uid
      ≡ kept (λ c. not (c.source == gvr)) (lookup k idx.by_uid)
unfolding delete_by_source
lookup-delete_by_source gvr k idx h = ground (
  arith,
  lookup-take_out k (uids_of_source gvr idx.by_uid) idx.by_uid,
  any-uids_of_source gvr k idx.by_uid h,
)

pub delete_by_source-HasDistinctKeys :
    (gvr : GroupVersionResource) (idx : Indexer)
    → HasDistinctKeys idx.by_uid
    → HasDistinctKeys (delete_by_source gvr idx).0.by_uid
unfolding delete_by_source
delete_by_source-HasDistinctKeys gvr idx h =
    take_out-HasDistinctKeys (uids_of_source gvr idx.by_uid) idx.by_uid h

pub on_change-delete_by_source :
    (gvr : GroupVersionResource) (idx : Indexer)
    → (delete_by_source gvr idx).0.on_change ≡ idx.on_change
unfolding delete_by_source
on_change-delete_by_source gvr idx = refl

-- Each UID of the list is in the map, under its own constraint, when its turn comes.
abbrev IsDeletable : List String → Dict String Constraint → Type 0
IsDeletable [] m = Unit {0}
IsDeletable (u ∷ us) m =
    ((c : Constraint) × (lookup u m ≡ some c) × (c.uid ≡ u)) × IsDeletable us (erase u m)

abbrev pub uids : List Constraint → List String
uids = map (λ c. c.uid)

uids-take_out :
    (us : List String) (m : Dict String Constraint) → IsDeletable us m → uids (take_out us m).1 ≡ us
unfolding take_out
uids-take_out [] m h = refl
uids-take_out (u ∷ us) m ((c, found, e), rest) = ground (arith, uids-take_out us (erase u m) rest)

abbrev AllPresent : List String → Dict String Constraint → Type 0
AllPresent [] m = Unit {0}
AllPresent (u ∷ us) m =
    ((c : Constraint) × (lookup u m ≡ some c) × (c.uid ≡ u))
    × (any (λ v. v == u) us ≡ false)
    × AllPresent us m

AllPresent-erase :
    (u : String) (us : List String) (m : Dict String Constraint)
    → any (λ v. v == u) us ≡ false
    → AllPresent us m
    → AllPresent us (erase u m)
unfolding any
AllPresent-erase u [] m h p = tt
AllPresent-erase u (v ∷ us) m h ((c, found, e), fresh, rest) = (
  (c, ground (arith, lookup-erase u v m, eq_iff u v, eq_iff v u), e),
  fresh,
  AllPresent-erase u us m (ground arith) rest,
)

AllPresent-IsDeletable :
    (us : List String) (m : Dict String Constraint) → AllPresent us m → IsDeletable us m
AllPresent-IsDeletable [] m p = tt
AllPresent-IsDeletable (u ∷ us) m (here, fresh, rest) =
    (here, AllPresent-IsDeletable us (erase u m) (AllPresent-erase u us m fresh rest))

-- In a bigger map under a fresh key, the same UIDs are present.
AllPresent-cons :
    (j : String) (d : Constraint) (us : List String) (m : Dict String Constraint)
    → any (λ v. v == j) us ≡ false
    → AllPresent us m
    → AllPresent us ((j, d) ∷ m)
unfolding any lookup
AllPresent-cons j d [] m h p = tt
AllPresent-cons j d (u ∷ us) m h ((c, found, e), fresh, rest) = (
  (c, ground (arith, eq_iff j u, eq_iff u j), e),
  fresh,
  AllPresent-cons j d us m (ground arith) rest,
)

-- Each constraint stands under its own UID.
abbrev pub IsKeyed : Dict String Constraint → Type 0
IsKeyed [] = Unit {0}
IsKeyed ((k, c) ∷ m) = (c.uid ≡ k) × IsKeyed m

uids_of_source-AllPresent :
    (gvr : GroupVersionResource) (m : Dict String Constraint)
    → HasDistinctKeys m
    → IsKeyed m
    → AllPresent (uids_of_source gvr m) m
unfolding uids_of_source
uids_of_source-AllPresent gvr [] h k = tt
uids_of_source-AllPresent gvr ((j, c) ∷ m) (fresh, h) (e, k) =
    let absent : any (λ v. v == j) (uids_of_source gvr m) ≡ false =
      ground (arith, any-uids_of_source gvr j m h) in
    let rest =
      AllPresent-cons j c (uids_of_source gvr m) m absent (uids_of_source-AllPresent gvr m h k) in
    elim (Bool-cases (c.source == gvr)) [
      | inl t ↦ rw t ((c, unfold lookup in ground (arith, eq_iff j j), e), absent, rest)
      | inr f ↦ rw f rest
    ]

pub erase-IsKeyed : (k : String) (m : Dict String Constraint) → IsKeyed m → IsKeyed (erase k m)
unfolding erase
erase-IsKeyed k [] h = tt
erase-IsKeyed k ((j, c) ∷ m) h = ground (arith, erase-IsKeyed k m h.1)

take_out-IsKeyed :
    (us : List String) (m : Dict String Constraint) → IsKeyed m → IsKeyed (take_out us m).0
unfolding take_out
take_out-IsKeyed [] m h = h
take_out-IsKeyed (u ∷ us) m h = take_out-IsKeyed us (erase u m) (erase-IsKeyed u m h)

pub delete_by_source-IsKeyed :
    (gvr : GroupVersionResource) (idx : Indexer)
    → IsKeyed idx.by_uid
    → IsKeyed (delete_by_source gvr idx).0.by_uid
unfolding delete_by_source
delete_by_source-IsKeyed gvr idx h = take_out-IsKeyed (uids_of_source gvr idx.by_uid) idx.by_uid h

-- The constraints that `DeleteBySource` reports are those under the collected UIDs.
pub uids_of_source-take_out :
    (gvr : GroupVersionResource) (m : Dict String Constraint)
    → HasDistinctKeys m
    → IsKeyed m
    → uids (take_out (uids_of_source gvr m) m).1 ≡ uids_of_source gvr m
uids_of_source-take_out gvr m h k =
    uids-take_out (uids_of_source gvr m) m
      (AllPresent-IsDeletable (uids_of_source gvr m) m (uids_of_source-AllPresent gvr m h k))

pub uid_of_lookup :
    (k : String) (m : Dict String Constraint) (c : Constraint)
    → IsKeyed m
    → lookup k m ≡ some c
    → c.uid ≡ k
unfolding lookup
uid_of_lookup k [] c h e = cc
uid_of_lookup k ((j, d) ∷ m) c h e = ground (arith, eq_iff j k, uid_of_lookup k m c h.1)
