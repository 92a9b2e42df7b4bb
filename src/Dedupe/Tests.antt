-- ===== src/Dedupe/Tests.antt =====
-- Witnesses and runs of the deduplication cache.
use nightjar.Prelude.{ℕ, String, ◌≡◌, refl, List, [], ◌∷◌, arith, string_eq}
use nightjar.Prelude.Dict
use nightjar.Dedupe.{Call, marks, cleans, run, try_mark_seen, cleanup}
use nightjar.Dedupe.Spacing.{IsSpaced, run-IsSpaced}

abbrev calls : List (ℕ × Call String)
calls = (1, marks "a") ∷ (4, marks "a") ∷ (5, marks "b") ∷ (12, cleans) ∷ (13, marks "a") ∷ []

run-IsSpaced_example : IsSpaced 10 (run 10 calls [])
run-IsSpaced_example = run-IsSpaced 10 calls (omega arith)

-- The second mark of "a" comes within the window, the third after it.
accepted : run 10 calls [] ≡ ("a", 1) ∷ ("b", 5) ∷ ("a", 13) ∷ []
unfolding run try_mark_seen cleanup Dict.lookup Dict.insert Dict.retain
accepted = refl
