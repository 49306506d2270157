-- ===== src/Registry/Names.antt =====
-- Registering metrics and looking them up by name.
use wrkr.Prelude.{
  ℕ, ◌+◌, ◌%◌, ◌^◌, ◌<◌, ◌≤◌, ◌≡◌, refl, Option, none, some, Option-cases, inl, inr, [], ◌∷◌, ◌++◌,
  String, str_eq, eq_iff, length, length-append, lt_of_get_elem?, arith, if◌then◌else◌,
}
use wrkr.Prelude.Dict.{lookup, lookup-insert}
use wrkr.Metrics.{Interner, get_or_intern}
use wrkr.Metrics.Interning.{IsInterner, get_or_intern-cases, push_name, length-get_or_intern}
use wrkr.Registry.{MetricKind, MetricDef, Registry, find_def, lookup_metric, register}
use wrkr.Registry.Defs.{
  AreInterned, find_def-none, find_def-push, find_def-lt, metric_of, registered, All-below,
  All-push,
}

abbrev pub entry : ℕ → MetricKind → MetricDef
entry name kind = record { name = name; kind = kind }

module _ {Hist : Type 0} where
  abbrev pub metric_named : String → Registry Hist → Option (ℕ × MetricKind)
  metric_named name r = metric_of (lookup name r.interner.ids) r.defs

  lookup_metric-named :
      (name : String) (r : Registry Hist)
      → length r.interner.names < 2 ^ 32
      → AreInterned r.defs r.interner
      → (lookup_metric name r).1 ≡ metric_named name r
  unfolding lookup_metric
  lookup_metric-named name r room interned = elim (get_or_intern-cases name r.interner room) [
    | inl (id, (known, e)) ↦ ground (arith, known, e)
    | inr (fresh, e) ↦
        ground (arith, fresh, e, find_def-none (length r.interner.names) r.defs interned)
  ]

  register-named :
      (name other : String) (kind : MetricKind) (r : Registry Hist)
      → IsInterner r.interner
      → length r.interner.names < 2 ^ 32
      → AreInterned r.defs r.interner
      → metric_named other (register name kind r).0 ≡ (
          if str_eq name other
          then some (registered (metric_named name r) (length r.defs) kind)
          else metric_named other r)
  unfolding register push_name
  register-named name other kind r wf room interned =
      elim (get_or_intern-cases name r.interner room) [
        | inl (id, (known, e)) ↦ elim (Option-cases (lookup other r.interner.ids)) [
          | inl absent ↦
              ground (
                arith,
                known,
                e,
                absent,
                eq_iff name other,
                find_def-push id r.defs (entry id kind),
              )
          | inr (m, present) ↦ ground (
            arith,
            known,
            e,
            present,
            eq_iff name other,
            find_def-push id r.defs (entry id kind),
            find_def-push m r.defs (entry id kind),
            wf.named name id known,
            wf.named other m present,
          )
        ]
        | inr (fresh, e) ↦
            let n = length r.interner.names in
            let ids = lookup-insert name other n r.interner.ids in
            let free = find_def-none n r.defs interned in
            let pushed = find_def-push n r.defs (entry n kind) in
            elim (Option-cases (lookup other r.interner.ids)) [
              | inl absent ↦ ground (arith, fresh, e, absent, eq_iff name other, ids, free, pushed)
              | inr (m, present) ↦
                  let below = lt_of_get_elem? r.interner.names m other (wf.named other m present) in
                  let kept = find_def-push m r.defs (entry n kind) in
                  ground
                    (arith, fresh, e, present, eq_iff name other, ids, free, pushed, below, kept)
            ]
      ]

  -- The two states that `register` can leave.
  pub register-old :
      (name : String) (kind old : MetricKind) (i : Interner) (id idx : ℕ) (r : Registry Hist)
      → get_or_intern name r.interner ≡ (i, id)
      → find_def id r.defs ≡ some (idx, old)
      → register name kind r ≡ (record r { interner = i }, idx % 2 ^ 32)
  unfolding register
  register-old name kind old i id idx r e found = ground (arith, e, found)

  pub register-new :
      (name : String) (kind : MetricKind) (i : Interner) (id : ℕ) (r : Registry Hist)
      → get_or_intern name r.interner ≡ (i, id)
      → find_def id r.defs ≡ none
      → register name kind r ≡ (
        record r {
          interner = i;
          defs = r.defs ++ (entry id kind ∷ []);
          storage = r.storage ++ ([] ∷ []);
        },
        length r.defs % 2 ^ 32,
      )
  unfolding register
  register-new name kind i id r e missing = ground (arith, e, missing)

  -- Whatever is registered, the names of the metrics stay interned.
  pub register-AreInterned :
      (name : String) (kind : MetricKind) (r : Registry Hist)
      → IsInterner r.interner
      → length r.interner.names < 2 ^ 32
      → AreInterned r.defs r.interner
      → AreInterned (register name kind r).0.defs (register name kind r).0.interner
  unfolding push_name
  register-AreInterned name kind r wf room interned =
      elim (get_or_intern-cases name r.interner room) [
        | inl (id, (known, e)) ↦
            let below = lt_of_get_elem? r.interner.names id name (wf.named name id known) in
            elim (Option-cases (find_def id r.defs)) [
              | inl missing ↦
                  rw (register-new name kind r.interner id r e missing)
                    (All-push (length r.interner.names) (entry id kind) r.defs below interned)
              | inr ((idx, old), found) ↦
                  rw (register-old name kind old r.interner id idx r e found) interned
            ]
        | inr (fresh, e) ↦
            let n = length r.interner.names in
            let i = push_name name r.interner in
            let longer : length i.names ≡ n + 1 = length-append r.interner.names (name ∷ []) in
            let raised = All-below n (length i.names) r.defs (omega (arith, longer)) interned in
            rw (register-new name kind i n r e (find_def-none n r.defs interned))
              (All-push (length i.names) (entry n kind) r.defs (omega (arith, longer)) raised)
      ]

  register-names :
      (name : String) (kind : MetricKind) (r : Registry Hist)
      → length r.interner.names < 2 ^ 32
      → length (register name kind r).0.interner.names ≤ length r.interner.names + 1
  register-names name kind r room =
      let (i, id) = get_or_intern name r.interner in
      let grown = length-get_or_intern name r.interner room in
      elim (Option-cases (find_def (get_or_intern name r.interner).1 r.defs)) [
        | inl missing ↦
            rw
              (register-new name kind (get_or_intern name r.interner).0
                (get_or_intern name r.interner).1 r refl missing)
              grown
        | inr ((idx, old), found) ↦
            rw
              (register-old name kind old (get_or_intern name r.interner).0
                (get_or_intern name r.interner).1 idx r refl found)
              grown
      ]

  register-place :
      (name : String) (kind : MetricKind) (r : Registry Hist)
      → length r.interner.names < 2 ^ 32
      → AreInterned r.defs r.interner
      → length r.defs < 2 ^ 32
      → (register name kind r).1 ≡ (registered (metric_named name r) (length r.defs) kind).0
  register-place name kind r room interned place = elim (get_or_intern-cases name r.interner room) [
    | inl (id, (known, e)) ↦ elim (Option-cases (find_def id r.defs)) [
      | inl missing ↦
          ground (arith, known, missing, register-new name kind r.interner id r e missing)
      | inr ((idx, old), found) ↦ ground (
        arith,
        known,
        found,
        register-old name kind old r.interner id idx r e found,
        find_def-lt id idx old r.defs found,
      )
    ]
    | inr (fresh, e) ↦
        let n = length r.interner.names in
        let free = find_def-none n r.defs interned in
        ground (arith, fresh, register-new name kind (push_name name r.interner) n r e free)
  ]

  -- After `register` the metric of that name is the one that had it before, with its kind, and
  -- otherwise a new one with the given kind, at the next place; `register` returns its place. Every
  -- other name has the metric that it had, or none. The interner and the list of metrics have room.
  pub lookup_metric-register :
      (name other : String) (kind : MetricKind) (r : Registry Hist)
      → IsInterner r.interner
      → AreInterned r.defs r.interner
      → length r.interner.names + 1 < 2 ^ 32
      → length r.defs < 2 ^ 32
      → ((lookup_metric other (register name kind r).0).1 ≡ (
          if str_eq name other
          then some (registered (lookup_metric name r).1 (length r.defs) kind)
          else (lookup_metric other r).1))
        × ((register name kind r).1 ≡ (registered (lookup_metric name r).1 (length r.defs) kind).0)
  lookup_metric-register name other kind r wf interned room place =
      let fits : length r.interner.names < 2 ^ 32 = omega arith in
      let r' = (register name kind r).0 in
      let fits' : length r'.interner.names < 2 ^ 32 =
        omega (arith, register-names name kind r fits) in
      let own = lookup_metric-named name r fits interned in
      let old = lookup_metric-named other r fits interned in
      let now =
        lookup_metric-named other r' fits' (register-AreInterned name kind r wf fits interned) in
      rw (own, old, now)
        (
          register-named name other kind r wf fits interned,
          register-place name kind r fits interned place,
        )
