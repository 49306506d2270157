-- ===== src/Messages/Maps.antt =====
-- Maps as lists of entries: what an insertion does, and how the decoder builds one.
use wrkr.Prelude.{◌≡◌, refl, true, false, none, some, ◌↔◌, ==_iff, if◌then◌else◌, arith}
use wrkr.Prelude.Int.{pos, negsuc}
use wrkr.Value.{MapKey, Value, MapMap}
use wrkr.Messages.Kinds.{key_eq, insert_entry}
use wrkr.Messages.Fitting.{get_entry}
use wrkr.Messages.Objects.{bytes_eq_iff}

pub key_eq_iff : (j k : MapKey) → (key_eq j k ≡ true) ↔ (j ≡ k)
unfolding key_eq
key_eq_iff (MapKey.bool true) (MapKey.bool true) = (λ e. refl, λ e. refl)
key_eq_iff (MapKey.bool true) (MapKey.bool false) = (λ e. cc, λ e. cc)
key_eq_iff (MapKey.bool false) (MapKey.bool true) = (λ e. cc, λ e. cc)
key_eq_iff (MapKey.bool false) (MapKey.bool false) = (λ e. refl, λ e. refl)
key_eq_iff (MapKey.i64 (pos a)) (MapKey.i64 (pos b)) = ground (arith, ==_iff a b)
key_eq_iff (MapKey.i64 (negsuc a)) (MapKey.i64 (negsuc b)) = ground (arith, ==_iff a b)
key_eq_iff (MapKey.u64 a) (MapKey.u64 b) = ground (arith, ==_iff a b)
key_eq_iff (MapKey.string a) (MapKey.string b) = ground (arith, bytes_eq_iff a b)
key_eq_iff _ _ = (λ e. cc, λ e. cc)

abbrev pub append_map : MapMap → MapMap → MapMap
append_map MapMap.empty m = m
append_map (MapMap.entry k v have) m = MapMap.entry k v (append_map have m)

-- No key of the second map is in the first.
abbrev pub FreshKeys : MapMap → MapMap → Type 0
FreshKeys have MapMap.empty = Unit
FreshKeys have (MapMap.entry k v m) = (get_entry k have ≡ none) × FreshKeys have m

pub append_map-empty : (have : MapMap) → append_map have MapMap.empty ≡ have
append_map-empty MapMap.empty = refl
append_map-empty (MapMap.entry k v have) = rw (append_map-empty have) refl

get_entry-insert_entry :
    (k j : MapKey) (v : Value) (have : MapMap)
    → get_entry j (insert_entry k v have) ≡ (if key_eq k j then some v else get_entry j have)
unfolding get_entry insert_entry
get_entry-insert_entry k j v MapMap.empty = refl
get_entry-insert_entry k j v (MapMap.entry i w have) =
    ground
      (arith, key_eq_iff i k, key_eq_iff i j, key_eq_iff k j, get_entry-insert_entry k j v have)

pub append_map-insert_entry :
    (k : MapKey) (v : Value) (have m : MapMap)
    → get_entry k have ≡ none
    → append_map (insert_entry k v have) m ≡ append_map have (MapMap.entry k v m)
unfolding get_entry insert_entry
append_map-insert_entry k v MapMap.empty m h = refl
append_map-insert_entry k v (MapMap.entry i w have) m h =
    ground (arith, append_map-insert_entry k v have m)

pub FreshKeys-insert_entry :
    (k : MapKey) (v : Value) (have m : MapMap)
    → get_entry k m ≡ none
    → FreshKeys have m
    → FreshKeys (insert_entry k v have) m
unfolding get_entry
FreshKeys-insert_entry k v have MapMap.empty apart h = tt
FreshKeys-insert_entry k v have (MapMap.entry i w m) apart h = (
  ground (arith, get_entry-insert_entry k i v have, key_eq_iff i k, key_eq_iff k i, h.0),
  FreshKeys-insert_entry k v have m (ground arith) h.1,
)

pub FreshKeys-empty : (m : MapMap) → FreshKeys MapMap.empty m
unfolding get_entry
FreshKeys-empty MapMap.empty = tt
FreshKeys-empty (MapMap.entry k v m) = (refl, FreshKeys-empty m)
