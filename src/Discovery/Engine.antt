-- ===== src/Discovery/Engine.antt =====
-- internal/discovery/engine.go: the state of the engine, and the handlers of its informers. Each
-- method runs alone here. The Kubernetes client is a parameter: what it lists, and whether the
-- registration of a handler fails. So are the parsers behind the interface `types.Adapter` and the
-- generic adapter. Of an informer the model knows its resource and the channel that stops it.
use nightjar.Prelude.{
  ℕ, String, Bool, false, ◌&&◌, not, Option, none, some, List, [], ◌∷◌, if◌then◌else◌, ◌==◌,
  string_eq,
}
use nightjar.Prelude.Dict.{Dict, lookup}
use nightjar.Types.{Constraint, GroupVersionResource, gvr_eq}
use nightjar.Util.{Unstructured}
use nightjar.Adapters.{Parsed, error, parsed}
use nightjar.Registry.{Adapter, Registry, for_name, for_gvr, for_group}
use nightjar.Indexer
use nightjar.Indexer.{Indexer}

-- v1alpha1.FieldPaths
pub record FieldPaths : Type 0 where
  pub selector_path : String
  pub namespace_selector_path : String
  pub effect_path : String
  pub summary_path : String

-- The stop channel of the engine, or one that was made for a profile.
pub data StopChannel : Type 0 where
  of_engine : StopChannel
  of_profile : ℕ → StopChannel

pub record ProfileState : Type 0 where
  pub gvr : GroupVersionResource
  pub adapter : String
  pub field_paths : Option FieldPaths
  pub severity : String
  pub enabled : Bool
  pub stop_ch : Option ℕ

-- `running` holds the informers whose channel is open, `next` the number of channels made.
pub record Engine : Type 0 where
  pub registry : Registry
  pub indexer : Indexer
  pub watched_gvrs : Dict GroupVersionResource Bool
  pub informers : Dict GroupVersionResource StopChannel
  pub running : List (GroupVersionResource × StopChannel)
  pub next : ℕ
  pub stopped : Bool
  pub policy_groups : Dict String Bool
  pub name_hints : List String
  pub profiles : Dict String ProfileState
  pub annotated_crds : Dict GroupVersionResource Bool
  pub check_annotation : Bool

-- generic.ParseConfig
pub record ParseConfig : Type 0 where
  pub paths : Option FieldPaths
  pub severity_override : String

pub record Parsers : Type 0 where
  pub parse : Adapter → Unstructured → Parsed
  pub parse_with_gvr : Unstructured → GroupVersionResource → Parsed
  pub parse_with_config : Unstructured → GroupVersionResource → ParseConfig → Parsed

-- What an informer hands to its handlers.
pub data Delivered : Type 0 where
  an_object : Unstructured → Delivered
  tombstone : Option Unstructured → Delivered
  unexpected : Delivered

unfoldable pub is_watched : GroupVersionResource → Engine → Bool
is_watched gvr e = elim (lookup gvr e.watched_gvrs) [ none ↦ false | some b ↦ b ]

-- The first enabled profile for the resource that the loop over the map meets.
unfoldable pub profile_for : GroupVersionResource → Dict String ProfileState → Option ProfileState
profile_for gvr [] = none
profile_for gvr ((name, ps) ∷ m) =
    let rest = profile_for gvr m in if ps.enabled && (ps.gvr == gvr) then some ps else rest

-- The loops over the parsed constraints.
unfoldable pub upsert_all : List Constraint → Indexer → Indexer
upsert_all [] idx = idx
upsert_all (c ∷ cs) idx = upsert_all cs (Indexer.upsert c idx).0

unfoldable pub delete_all : List Constraint → Indexer → Indexer
delete_all [] idx = idx
delete_all (c ∷ cs) idx = delete_all cs (Indexer.delete c.uid idx).0

unfoldable pub store_parsed : Parsed → Engine → Engine
store_parsed (error _) e = e
store_parsed (parsed cs) e = record e { indexer = upsert_all cs e.indexer }

-- A failed or empty parse deletes by the UID of the object.
unfoldable pub delete_parsed : Parsed → String → Engine → Engine
delete_parsed (error _) uid e = record e { indexer = (Indexer.delete uid e.indexer).0 }
delete_parsed (parsed []) uid e = record e { indexer = (Indexer.delete uid e.indexer).0 }
delete_parsed (parsed (c ∷ cs)) uid e = record e { indexer = delete_all (c ∷ cs) e.indexer }

module _ (parsers : Parsers) where
  -- What is left when no named adapter parses the object.
  unfoldable pub parse_by_resource :
      Engine → Option ProfileState → GroupVersionResource → Unstructured → Parsed
  parse_by_resource e profile gvr obj = elim (for_gvr gvr e.registry) [
    | some adapter ↦ parsers.parse adapter obj
    | none ↦ elim (for_group gvr.group e.registry) [
      | some adapter ↦ parsers.parse adapter obj
      | none ↦ elim profile [
        | some ps ↦
            parsers.parse_with_config obj gvr
              (record { paths = ps.field_paths; severity_override = ps.severity })
        | none ↦ parsers.parse_with_gvr obj gvr
      ]
    ]
  ]

  unfoldable pub parse_object : Engine → GroupVersionResource → Unstructured → Parsed
  unfolding parse_by_resource profile_for
  parse_object e gvr obj = elim (profile_for gvr e.profiles) [
    | none ↦ parse_by_resource e none gvr obj
    | some ps ↦
        if not (ps.adapter == "") && not (ps.adapter == "generic")
        then elim (for_name ps.adapter e.registry) [
          | some adapter ↦ parsers.parse adapter obj
          | none ↦ parse_by_resource e (some ps) gvr obj
        ]
        else parse_by_resource e (some ps) gvr obj
  ]

  unfoldable pub handle_add : GroupVersionResource → Delivered → Engine → Engine
  unfolding is_watched store_parsed upsert_all
  handle_add gvr (an_object obj) e =
      if not (is_watched gvr e) then e else store_parsed (parse_object e gvr obj) e
  handle_add gvr (tombstone _) e = e
  handle_add gvr unexpected e = e

  unfoldable pub handle_update : GroupVersionResource → Delivered → Engine → Engine
  unfolding handle_add
  handle_update gvr d e = handle_add gvr d e

  unfoldable pub handle_delete : GroupVersionResource → Delivered → Engine → Engine
  unfolding delete_parsed delete_all
  handle_delete gvr (an_object obj) e = delete_parsed (parse_object e gvr obj) obj.uid e
  handle_delete gvr (tombstone (some obj)) e = delete_parsed (parse_object e gvr obj) obj.uid e
  handle_delete gvr (tombstone none) e = e
  handle_delete gvr unexpected e = e
