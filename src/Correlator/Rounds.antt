-- ===== src/Correlator/Rounds.antt =====
-- The rounds of the handlers' loops: a new key in a channel with room, and a key seen lately.
use nightjar.Prelude.{
  ℕ, suc, ◌+◌, ◌≤◌, ◌<◌, String, ◌≡◌, refl, Bool, true, false, none, List, [], ◌∷◌, ◌++◌, map,
  arith, eq_iff, ◌==◌, string_eq, pair_eq, length, length-append, All, append-nil, append_assoc,
  ◌∙◌, keep,
}
use nightjar.Prelude.Dict.{Dict, HasDistinctKeys, lookup, insert, values, lookup-insert}
use nightjar.Dedupe.Spacing.{Recent}
use nightjar.Indexer.Invariant.{IsWellFormed}
use nightjar.Indexer.Sources.{IsKeyed}
use nightjar.Types.{Constraint}
use nightjar.Indexer.{Indexer, by_namespace}
use nightjar.Correlator.{
  Event, DedupeKey, Turns, Shared, send, notification_buffer, dedupe_window, try_mark_seen,
  event_notification, notify_all,
}

-- None of the constraints was seen with the key.
abbrev pub NoneSeen : String → List Constraint → Dict DedupeKey ℕ → Type 0
NoneSeen key cs seen = All (λ c. lookup (key, c.uid) seen ≡ none) cs

-- The constraints have distinct UIDs.
abbrev pub HasDistinctUids : List Constraint → Type 0
HasDistinctUids [] = Unit {0}
HasDistinctUids (c ∷ cs) = All (λ d. (c.uid == d.uid) ≡ false) cs × HasDistinctUids cs

NoneSeen-insert :
    (key : String) (c : Constraint) (now : ℕ) (cs : List Constraint) (seen : Dict DedupeKey ℕ)
    → All (λ d. (c.uid == d.uid) ≡ false) cs
    → NoneSeen key cs seen
    → NoneSeen key cs (insert (key, c.uid) now seen)
NoneSeen-insert key c now [] seen h n = tt
NoneSeen-insert key c now (d ∷ cs) seen (apart, h) (here, n) = (
  ground (arith, lookup-insert (key, c.uid) (key, d.uid) now seen),
  NoneSeen-insert key c now cs seen h n,
)

-- The cache after each of the keys was marked, in turn.
pub marked_all : Turns → ℕ → String → List Constraint → Dict DedupeKey ℕ → Dict DedupeKey ℕ
marked_all turns i key [] seen = seen
marked_all turns i key (c ∷ cs) seen =
    marked_all turns (suc i) key cs (insert (key, c.uid) (turns.now i) seen)

pub mark_new :
    (now : ℕ) (key : DedupeKey) (seen : Dict DedupeKey ℕ)
    → lookup key seen ≡ none
    → try_mark_seen now key seen ≡ (insert key now seen, true)
unfolding try_mark_seen
mark_new now key seen h = ground arith

send_room :
    {A : Type 0} (a : A) (channel : List A)
    → length channel < notification_buffer
    → send a channel ≡ channel ++ a ∷ []
unfolding send
send_room a channel h = ground arith

-- One round of the loop, for a new key and a channel with room.
abbrev after_new : Turns → ℕ → Event → Constraint → Shared → Shared
after_new turns i event c s = record s {
  notifications = s.notifications ++ event_notification event c ∷ [];
  seen_pairs = insert (event.uid, c.uid) (turns.now i) s.seen_pairs;
}

notify_all-step :
    (turns : Turns) (i : ℕ) (event : Event) (c : Constraint) (cs : List Constraint) (s : Shared)
    → turns.done i ≡ false
    → lookup (event.uid, c.uid) s.seen_pairs ≡ none
    → length s.notifications < notification_buffer
    → notify_all turns i event (c ∷ cs) s
      ≡ notify_all turns (suc i) event cs (after_new turns i event c s)
unfolding notify_all
notify_all-step turns i event c cs s go here room = rw (
  mark_new (turns.now i) (event.uid, c.uid) s.seen_pairs here,
  go,
  send_room (event_notification event c) s.notifications room,
)

pub notify_all-new :
    (turns : Turns) (i : ℕ) (event : Event) (cs : List Constraint) (s : Shared)
    → ((j : ℕ) → turns.done j ≡ false)
    → HasDistinctUids cs
    → NoneSeen event.uid cs s.seen_pairs
    → length s.notifications + length cs ≤ notification_buffer
    → notify_all turns i event cs s ≡ record s {
      notifications = s.notifications ++ map (event_notification event) cs;
      seen_pairs = marked_all turns i event.uid cs s.seen_pairs;
    }
unfolding notify_all marked_all
notify_all-new turns i event [] s go d n room = ground (arith, append-nil s.notifications)
notify_all-new turns i event (c ∷ cs) s go (apart, d) (here, n) room =
    notify_all-step turns i event c cs s (go i) here (omega arith)
    ∙ notify_all-new turns (suc i) event cs (after_new turns i event c s) go d
        (NoneSeen-insert event.uid c (turns.now i) cs s.seen_pairs apart n)
        (omega (arith, length-append s.notifications (event_notification event c ∷ [])))
    ∙ rw append_assoc

-- All of the keys were accepted at `t` or later.
abbrev pub AllRecent : ℕ → String → List Constraint → Dict DedupeKey ℕ → Type 0
AllRecent t key cs seen = All (λ c. Recent t (lookup (key, c.uid) seen)) cs

marked_all-Recent :
    (t : ℕ) (turns : Turns) (i : ℕ) (key : String) (k : DedupeKey) (cs : List Constraint)
    (seen : Dict DedupeKey ℕ)
    → ((j : ℕ) → t ≤ turns.now j)
    → Recent t (lookup k seen)
    → Recent t (lookup k (marked_all turns i key cs seen))
unfolding marked_all
marked_all-Recent t turns i key k [] seen late r = r
marked_all-Recent t turns i key k (c ∷ cs) seen late r =
    marked_all-Recent t turns (suc i) key k cs (insert (key, c.uid) (turns.now i) seen) late
      (ground (arith, lookup-insert (key, c.uid) k (turns.now i) seen, late i))

pub marked_all-AllRecent :
    (t : ℕ) (turns : Turns) (i : ℕ) (key : String) (cs : List Constraint) (seen : Dict DedupeKey ℕ)
    → ((j : ℕ) → t ≤ turns.now j)
    → AllRecent t key cs (marked_all turns i key cs seen)
unfolding marked_all
marked_all-AllRecent t turns i key [] seen late = tt
marked_all-AllRecent t turns i key (c ∷ cs) seen late = (
  marked_all-Recent t turns (suc i) key (key, c.uid) cs (insert (key, c.uid) (turns.now i) seen)
      late
      (ground (
        arith,
        lookup-insert (key, c.uid) (key, c.uid) (turns.now i) seen,
        eq_iff key key,
        eq_iff c.uid c.uid,
        late i,
      )),
  marked_all-AllRecent t turns (suc i) key cs (insert (key, c.uid) (turns.now i) seen) late,
)

pub mark_old :
    (t now : ℕ) (key : DedupeKey) (seen : Dict DedupeKey ℕ)
    → now < t + dedupe_window
    → Recent t (lookup key seen)
    → try_mark_seen now key seen ≡ (seen, false)
unfolding try_mark_seen
mark_old t now key seen h r = ground arith

pub notify_all-old :
    (t : ℕ) (turns : Turns) (i : ℕ) (event : Event) (cs : List Constraint) (s : Shared)
    → ((j : ℕ) → turns.now j < t + dedupe_window)
    → AllRecent t event.uid cs s.seen_pairs
    → notify_all turns i event cs s ≡ s
unfolding notify_all
notify_all-old t turns i event [] s soon r = refl
notify_all-old t turns i event (c ∷ cs) s soon (here, r) =
    rw (mark_old t (turns.now i) (event.uid, c.uid) s.seen_pairs (soon i) here)
      (notify_all-old t turns (suc i) event cs s soon r)

-- The UIDs of what the indexer returns are distinct.
values-apart :
    (k : String) (p : Constraint → Bool) (m : Dict String Constraint)
    → IsKeyed m
    → lookup k m ≡ none
    → All (λ d. (k == d.uid) ≡ false) (keep p (values m))
unfolding keep values lookup
values-apart k p [] h n = tt
values-apart k p ((j, c) ∷ m) (e, h) n =
    ground (arith, values-apart k p m h, eq_iff j k, eq_iff k c.uid)

keep-HasDistinctUids :
    (p : Constraint → Bool) (m : Dict String Constraint)
    → IsKeyed m
    → HasDistinctKeys m
    → HasDistinctUids (keep p (values m))
unfolding keep values
keep-HasDistinctUids p [] h d = tt
keep-HasDistinctUids p ((j, c) ∷ m) (e, h) (fresh, d) =
    let apart = values-apart j p m h fresh in
    let apart' : All (λ x. (c.uid == x.uid) ≡ false) (keep p (values m)) = rw e apart in
    ground (arith, apart', keep-HasDistinctUids p m h d)

pub by_namespace-HasDistinctUids :
    (idx : Indexer) (ns : String) → IsWellFormed idx → HasDistinctUids (by_namespace idx ns)
unfolding by_namespace
by_namespace-HasDistinctUids idx ns w = keep-HasDistinctUids _ idx.by_uid w.keyed w.distinct
