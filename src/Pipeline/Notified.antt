-- ===== src/Pipeline/Notified.antt =====
-- What the discovery engine adds, the correlator finds.
use nightjar.Prelude.{ℕ, ◌≡◌, ap, subst, sym, inl, inr, List, [], ◌∷◌, map, true, ◌∈◌, mem-append}
use nightjar.Types.{Constraint, GroupVersionResource}
use nightjar.Util.{Unstructured}
use nightjar.Adapters.{parsed}
use nightjar.Indexer.{by_namespace}
use nightjar.Indexer.Queries.{Affects, by_namespace_iff}
use nightjar.Correlator.{Event, Limiter, Turns, Shared, handle_event}
use nightjar.Correlator.Handlers.{told}
use nightjar.Correlator.Repeats.{IsFirst, handle_event_complete}
use nightjar.Discovery.Engine.{Engine, Parsers, an_object, is_watched, parse_object, handle_add}
use nightjar.Discovery.Objects.{HasDistinctUids, handle_add-store}

mem-map : {A B : Type 0} (f : A → B) (x : A) (l : List A) → x ∈ l → f x ∈ map f l
mem-map f x [] m = m
mem-map f x (y ∷ l) m = elim m [ inl e ↦ inl (ap f e) | inr later ↦ inr (mem-map f x l later) ]

-- Where the resource is watched and the object parses to constraints of distinct UIDs, the first
-- event after its addition, past the limiter, uncancelled and with room in the channel, sends a
-- notification of each of these constraints that affects the event's namespace.
pub handle_event-handle_add :
    (parsers : Parsers) (gvr : GroupVersionResource) (e : Engine) (obj : Unstructured)
    (cs : List Constraint) (c : Constraint) (l : Limiter) (now : ℕ) (turns : Turns) (event : Event)
    (limiter : l.State) (s : Shared)
    → is_watched gvr e ≡ true
    → parse_object parsers e gvr obj ≡ parsed cs
    → HasDistinctUids cs
    → c ∈ cs
    → Affects c event.involved_namespace
    → IsFirst l (handle_add parsers gvr (an_object obj) e).indexer now turns event limiter s
    → let idx = (handle_add parsers gvr (an_object obj) e).indexer in
      told event c ∈ (handle_event l idx now turns event (limiter, s)).1.notifications
handle_event-handle_add parsers gvr e obj cs c l now turns event limiter s watched parses distinct m
      affects first =
    let idx = (handle_add parsers gvr (an_object obj) e).indexer in
    let ns = event.involved_namespace in
    let stored = (handle_add-store parsers gvr e obj cs watched parses distinct).0 c m in
    let listed = (by_namespace_iff idx ns c first.well_formed).1 (stored, affects) in
    let all = map (told event) (by_namespace idx ns) in
    subst (λ sent. told event c ∈ sent)
      (sym (handle_event_complete l idx now turns event limiter s first))
      ((mem-append (told event c) s.notifications all).1
        (inr (mem-map (told event) c (by_namespace idx ns) listed)))
