-- ===== src/Registry/CounterRuns.antt =====
-- A counter as the program makes it, for runs of what reads it.
use wrkr.Prelude.{ℕ, ◌≡◌, refl, some, List, [], ◌∷◌}
use wrkr.Prelude.Dict.{lookup, insert, remove}
use wrkr.Metrics.{get_or_intern, tags_eq}
use wrkr.Registry.{
  MetricKind, counter, MetricHandle, Registry, register, find_def, create_handle, write,
  add_counter,
}
use wrkr.Registry.Runs.{kept}
use wrkr.Registry.Writes.{increment, stored, perform}
use wrkr.Registry.Reached.{empty, Reach, begin, interns, registers, creates, performs}

-- A counter that is registered, gets a series of the scenario `main` and is raised by 10.
abbrev registered : Registry (List ℕ)
registered = record {
  interner = record { ids = insert "requests_total" 0 []; names = "requests_total" ∷ [] };
  defs = record { name = 0; kind = MetricKind.counter } ∷ [];
  storage = [] ∷ [];
  next_cell = 0;
}

abbrev resolved : Registry (List ℕ)
resolved = record registered {
  interner = record {
    ids = insert "main" 2 (insert "scenario" 1 (insert "requests_total" 0 []));
    names = "requests_total" ∷ "scenario" ∷ "main" ∷ [];
  };
}

abbrev created : Registry (List ℕ) × MetricHandle
created = (
  record resolved {
    storage = (record { tags = (1, 2) ∷ []; cell = 0; storage = counter 0 } ∷ []) ∷ [];
    next_cell = 1;
  },
  record { metric = 0; tags = (1, 2) ∷ []; cell = 0; kind = MetricKind.counter },
)

abbrev pub raised : Registry (List ℕ)
raised = record resolved {
  storage = (record { tags = (1, 2) ∷ []; cell = 0; storage = counter 10 } ∷ []) ∷ [];
  next_cell = 1;
}

register_requests : (register "requests_total" MetricKind.counter (empty kept)).0 ≡ registered
unfolding register get_or_intern lookup find_def
register_requests = refl

resolve_names :
    (get_or_intern "main" (get_or_intern "scenario" registered.interner).0).0 ≡ resolved.interner
unfolding get_or_intern lookup insert remove
resolve_names = refl

create_series : create_handle kept 0 ((1, 2) ∷ []) resolved ≡ some created
unfolding create_handle
create_series = refl

raise_by_ten : perform kept (increment 10) created.1 created.0 ≡ raised
unfolding perform write stored add_counter tags_eq
raise_by_ten = refl

pub raised-Reach : Reach kept raised
raised-Reach =
    let one : Reach kept (register "requests_total" MetricKind.counter (empty kept)).0 =
      registers "requests_total" MetricKind.counter begin in
    let known : Reach kept registered = rw register_requests at one in
    let scenario : Reach kept
        (record registered { interner = (get_or_intern "scenario" registered.interner).0 }) =
      interns "scenario" known in
    let both : Reach kept (record registered {
      interner = (get_or_intern "main" (get_or_intern "scenario" registered.interner).0).0;
    }) =
      interns "main" scenario in
    let ready : Reach kept resolved = rw resolve_names at both in
    let made : Reach kept created.0 = creates 0 ((1, 2) ∷ []) created create_series ready in
    let after : Reach kept (perform kept (increment 10) created.1 created.0) =
      performs (increment 10) created.1 made in
    rw raise_by_ten at after
