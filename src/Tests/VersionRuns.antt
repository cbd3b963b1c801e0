-- ===== src/Tests/VersionRuns.antt =====
-- A version graph of pkg/surql/migration/versioning.go that grows to three versions and shrinks.
use mathlib.Core.List.{reverse}
use surql_go.Prelude.{
  contains, ◌↔◌, Option, ℕ, ◌≡◌, ◌≢◌, refl, sym, inl, inr, true, false, if◌then◌else◌, none, some,
  List, [], ◌∷◌, arith, Str, bytes, str_eq, lookup, insert, delete,
}
use surql_go.Errors.{ok}
use surql_go.Migration.Versions.Descent.{Descendant, descendants_lem}
use surql_go.Migration.Versions.{
  descendants, descendants_loop, unseen, SchemaSnapshot, VersionNode, VersionGraph, add, remove,
  ancestors, ancestors_loop, attach, insert_sorted, detach, reparent, reparent_all, first_root,
  remove_from_slice,
}
use surql_go.Migration.Versions.WellFormed.{WellFormed}
use surql_go.Migration.Versions.Adding.{CanAdd, IsAdded, add_lem}
use surql_go.Migration.Versions.Ancestry.{Lineage, ancestors_lem}
use surql_go.Migration.Versions.Paths.{scan, neighbours, path_loop, find_path}
use surql_go.Migration.Versions.Paths.Search.{PathFits, find_path_lem}
use surql_go.Migration.Versions.Removed.{remove_lem}

abbrev snap : Str → SchemaSnapshot ℕ
snap v = record { version = v; contents = 7 }

abbrev v1 : Str
v1 = bytes "1"

abbrev v2 : Str
v2 = bytes "2"

abbrev v3 : Str
v3 = bytes "3"

abbrev node : Str → Str → List Str → VersionNode ℕ
node v p cs = record { version = v; parent = p; snapshot = snap v; children = cs }

abbrev empty_graph : VersionGraph ℕ
empty_graph = record { nodes = []; root = [] }

abbrev graph1 : VersionGraph ℕ
graph1 = record { nodes = (v1, node v1 [] []) ∷ []; root = v1 }

abbrev graph2 : VersionGraph ℕ
graph2 = record { nodes = (v1, node v1 [] (v2 ∷ [])) ∷ (v2, node v2 v1 []) ∷ []; root = v1 }

abbrev graph3 : VersionGraph ℕ
graph3 = record {
  nodes = (v1, node v1 [] (v2 ∷ [])) ∷ (v2, node v2 v1 (v3 ∷ [])) ∷ (v3, node v3 v2 []) ∷ [];
  root = v1;
}

program : Unit {0}
unfolding add remove attach detach reparent reparent_all first_root remove_from_slice contains
    insert_sorted lookup insert delete str_eq ancestors ancestors_loop descendants descendants_loop
    unseen find_path path_loop scan neighbours
program = tt

adds_up :
    (add (snap v1) [] empty_graph ≡ ok graph1)
    × (add (snap v2) v1 graph1 ≡ ok graph2)
    × (add (snap v3) v2 graph2 ≡ ok graph3)
unfolding program
adds_up = (refl, refl, refl)

empty-WellFormed : WellFormed empty_graph
unfolding lookup
empty-WellFormed = record {
  named = λ k n h. absurd (ground (arith, h));
  parented = λ k n h p. absurd (ground (arith, h));
  fathered = λ k c n h p. absurd (ground (arith, h));
  sorted = λ k n h. absurd (ground (arith, h));
  ordered = λ k n h p. absurd (ground (arith, h));
}

add-WellFormed :
    (s : SchemaSnapshot ℕ) (parent : Str) (g g' : VersionGraph ℕ)
    → WellFormed g
    → CanAdd s parent g
    → add s parent g ≡ ok g'
    → WellFormed g'
add-WellFormed s parent g g' w can runs =
    let (h, adds, valid, added) = add_lem s parent g w can in
    let same : h ≡ g' = ground arith in rw (sym same) valid

can1 : CanAdd (snap v1) [] empty_graph
unfolding program
can1 = (λ p. ground (arith, p), refl, inl refl)

can2 : CanAdd (snap v2) v1 graph1
unfolding program
can2 = (λ p. ground (arith, p), refl, inr (_, refl))

can3 : CanAdd (snap v3) v2 graph2
unfolding program
can3 = (λ p. ground (arith, p), refl, inr (_, refl))

graph2-WellFormed : WellFormed graph2
graph2-WellFormed =
    add-WellFormed (snap v2) v1 graph1 graph2
      (add-WellFormed (snap v1) [] empty_graph graph1 empty-WellFormed can1 adds_up.0) can2
      adds_up.1

graph3-WellFormed : WellFormed graph3
graph3-WellFormed = add-WellFormed (snap v3) v2 graph2 graph3 graph2-WellFormed can3 adds_up.2

add_lem_example :
    (g' : VersionGraph ℕ) × (add (snap v3) v2 graph2 ≡ ok g')
    × WellFormed g'
    × IsAdded (snap v3) v2 graph2 g'
add_lem_example = add_lem (snap v3) v2 graph2 graph2-WellFormed can3

cannot : ¬ CanAdd (snap v2) v1 graph2
unfolding program
cannot (named, free, above) = ground (arith, free)

found2 : lookup v2 graph3.nodes ≡ some (node v2 v1 (v3 ∷ []))
unfolding program
found2 = refl

remove_lem_example :
    (g' : VersionGraph ℕ) × (remove (v3 ∷ v1 ∷ []) v2 graph3 ≡ ok g')
    × WellFormed g'
    × (lookup v2 g'.nodes ≡ none)
    × ((j : Str) (q : VersionNode ℕ)
        → j ≢ v2
        → lookup j graph3.nodes ≡ some q
        → (q' : VersionNode ℕ) × (lookup j g'.nodes ≡ some q')
          × (q'.parent ≡ (if contains j (v3 ∷ []) then v1 else q.parent)))
remove_lem_example =
    remove_lem (v3 ∷ v1 ∷ []) v2 graph3 (node v2 v1 (v3 ∷ [])) graph3-WellFormed found2

found3 : lookup v3 graph3.nodes ≡ some (node v3 v2 [])
unfolding program
found3 = refl

ancestors_lem_example :
    (ps : List Str) × (ancestors v3 graph3 ≡ some (reverse ps))
    × Lineage graph3.nodes v3 ps
    × (contains v3 ps ≡ false)
ancestors_lem_example = ancestors_lem graph3 graph3-WellFormed v3 (node v3 v2 []) found3

found1 : lookup v1 graph3.nodes ≡ some (node v1 [] (v2 ∷ []))
unfolding program
found1 = refl

descendants_lem_example :
    (ds : List Str) × (descendants v1 graph3 ≡ some ds)
    × ((c : Str) → (contains c ds ≡ true) ↔ Descendant graph3.nodes v1 c)
descendants_lem_example = descendants_lem graph3 v1 (node v1 [] (v2 ∷ [])) graph3-WellFormed found1

both_found : descendants v1 graph3 ≡ some (v2 ∷ v3 ∷ [])
unfolding program
both_found = refl

find_path_lem_example :
    (r : Option (List Str)) × (find_path v3 v1 graph3 ≡ some r) × PathFits graph3.nodes v3 v1 r
find_path_lem_example =
    find_path_lem graph3 graph3-WellFormed v3 v1 (node v3 v2 []) (node v1 [] (v2 ∷ [])) found3
      found1

path_found : find_path v3 v1 graph3 ≡ some (some (v3 ∷ v2 ∷ v1 ∷ []))
unfolding program
path_found = refl

path_from_unknown : find_path (bytes "4") v1 graph3 ≡ some none
unfolding program
path_from_unknown = refl
