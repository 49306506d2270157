-- ===== src/Registry/Named.antt =====
-- In every registry that the program can come to, each metric is the one that its name finds.
use wrkr.Prelude.{
  ℕ, ◌^◌, ◌<◌, ◌≤◌, ◌≡◌, refl, sym, ap, subst, none, some, Option-cases, inl, inr, List, [], ◌∷◌,
  ◌++◌, String, length, get_elem?, length-append, arith,
}
use wrkr.Prelude.Dict.{lookup}
use wrkr.Metrics.{Interner, get_or_intern, TagSet}
use wrkr.Metrics.Interning.{IsInterner, new-IsInterner, get_or_intern_keeps-IsInterner}
use wrkr.Registry.HdrHistogram.{Histograms}
use wrkr.Registry.{
  MetricKind, MetricDef, MetricHandle, Registry, find_def, register, write, create_handle,
}
use wrkr.Registry.Defs.{AreInterned, find_def-push, All-below}
use wrkr.Registry.Names.{entry, register-old, register-new, register-AreInterned}
use wrkr.Registry.Writes.{Write, perform}
use wrkr.Registry.Preserved.{get_elem?-push}
use wrkr.Registry.Reached.{Reach, begin, interns, registers, creates, performs}

get_or_intern_grows :
    (s : String) (i : Interner) → length i.names ≤ length (get_or_intern s i).0.names
unfolding get_or_intern
get_or_intern_grows s i = elim (Option-cases (lookup s i.ids)) [
  | inl fresh ↦ ground (arith, fresh, length-append i.names (s ∷ []))
  | inr (id, known) ↦ ground (arith, known)
]

-- Each definition is the one that its name finds.
abbrev AreFound : List MetricDef → Type 0
AreFound defs =
    (m : ℕ) (d : MetricDef) → get_elem? defs m ≡ some d → find_def d.name defs ≡ some (m, d.kind)

pushed-AreFound :
    (e : MetricDef) (defs : List MetricDef)
    → find_def e.name defs ≡ none
    → AreFound defs
    → AreFound (defs ++ (e ∷ []))
pushed-AreFound e defs free own m d at = elim (get_elem?-push defs m e d at) [
  | inl old ↦ ground (arith, find_def-push d.name defs e, own m d old)
  | inr (last, same) ↦
      let named : e.name ≡ d.name = ap (λ (x : MetricDef). x.name) same in
      let kinds : e.kind ≡ d.kind = ap (λ (x : MetricDef). x.kind) same in
      ground (arith, find_def-push e.name defs e, free, last, named, kinds)
]

module _ {Hist : Type 0} where
  pub record IsNamed (r : Registry Hist) : Type 0 where
    pub interned : IsInterner r.interner
    pub below : AreInterned r.defs r.interner
    pub own :
        (m : ℕ) (d : MetricDef)
        → get_elem? r.defs m ≡ some d
        → find_def d.name r.defs ≡ some (m, d.kind)

  same-IsNamed :
      (r r' : Registry Hist) → r'.defs ≡ r.defs → r'.interner ≡ r.interner → IsNamed r → IsNamed r'
  same-IsNamed r r' defs interner wf = record {
    interned = subst (λ (i : Interner). IsInterner i) (sym interner) wf.interned;
    below = rw (defs, interner) wf.below;
    own = rw defs wf.own;
  }

  interned-IsNamed :
      (name : String) (r : Registry Hist)
      → length r.interner.names < 2 ^ 32
      → IsNamed r
      → IsNamed (record r { interner = (get_or_intern name r.interner).0 })
  interned-IsNamed name r room wf = record {
    interned = get_or_intern_keeps-IsInterner name r.interner wf.interned room;
    below = All-below _ _ r.defs (get_or_intern_grows name r.interner) wf.below;
    own = wf.own;
  }

  register-IsNamed :
      (name : String) (kind : MetricKind) (r : Registry Hist)
      → length r.interner.names < 2 ^ 32
      → IsNamed r
      → IsNamed (register name kind r).0
  register-IsNamed name kind r room wf =
      let i = (get_or_intern name r.interner).0 in
      let id = (get_or_intern name r.interner).1 in
      let all = register-AreInterned name kind r wf.interned room wf.below in
      elim (Option-cases (find_def id r.defs)) [
        | inl missing ↦
            let e = register-new name kind i id r refl missing in
            rw e (record {
              interned = get_or_intern_keeps-IsInterner name r.interner wf.interned room;
              below = rw e at all;
              own = pushed-AreFound (entry id kind) r.defs missing wf.own;
            })
        | inr ((idx, old), found) ↦
            rw (register-old name kind old i id idx r refl found) (interned-IsNamed name r room wf)
      ]

  register-interner :
      (name : String) (kind : MetricKind) (r : Registry Hist)
      → (register name kind r).0.interner ≡ (get_or_intern name r.interner).0
  register-interner name kind r =
      let i = (get_or_intern name r.interner).0 in
      let id = (get_or_intern name r.interner).1 in
      elim (Option-cases (find_def id r.defs)) [
        | inl missing ↦ rw (register-new name kind i id r refl missing) refl
        | inr ((idx, old), found) ↦ rw (register-old name kind old i id idx r refl found) refl
      ]

module _ (lib : Histograms) where
  create_handle-keeps :
      (metric : ℕ) (tags : TagSet) (q : Registry lib.Hist × MetricHandle) (r : Registry lib.Hist)
      → create_handle lib metric tags r ≡ some q
      → (q.0.defs ≡ r.defs) × (q.0.interner ≡ r.interner)
  unfolding create_handle
  create_handle-keeps metric tags q r e = elim (Option-cases (get_elem? r.defs metric)) [
    | inl missing ↦ absurd (ground (arith, missing))
    | inr (d, hd) ↦ elim (Option-cases (get_elem? r.storage metric)) [
      | inl missing ↦ absurd (ground (arith, missing, hd))
      | inr (series, hs) ↦ ground (arith, hd, hs)
    ]
  ]

  perform-keeps :
      (w : Write) (h : MetricHandle) (r : Registry lib.Hist)
      → ((perform lib w h r).defs ≡ r.defs) × ((perform lib w h r).interner ≡ r.interner)
  unfolding perform write
  perform-keeps w h r = ground arith

  -- The interner has room for all the names.
  pub Reach-IsNamed :
      (r : Registry lib.Hist) → Reach lib r → length r.interner.names < 2 ^ 32 → IsNamed r
  Reach-IsNamed r begin room = record { interned = new-IsInterner; below = tt; own = λ m d e. cc }
  Reach-IsNamed r (interns name {r = s} h) room =
      let before : length s.interner.names < 2 ^ 32 =
        omega (arith, get_or_intern_grows name s.interner) in
      interned-IsNamed name s before (Reach-IsNamed s h before)
  Reach-IsNamed r (registers name kind {r = s} h) room =
      let same = ap (λ (i : Interner). length i.names) (register-interner name kind s) in
      let before : length s.interner.names < 2 ^ 32 =
        omega (arith, get_or_intern_grows name s.interner, same) in
      register-IsNamed name kind s before (Reach-IsNamed s h before)
  Reach-IsNamed r (creates metric tags q {r = s} e h) room =
      let (defs, interner) = create_handle-keeps metric tags q s e in
      same-IsNamed s q.0 defs interner (Reach-IsNamed s h (rw interner at room))
  Reach-IsNamed r (performs w h {r = s} reach) room =
      let (defs, interner) = perform-keeps w h s in
      same-IsNamed s _ defs interner (Reach-IsNamed s reach (rw interner at room))
