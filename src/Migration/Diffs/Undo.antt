-- ===== src/Migration/Diffs/Undo.antt =====
-- The diffs of two tables in one direction against those in the other, for indexes and events.
use surql_go.Prelude.{
  ◌≡◌, refl, sym, inl, inr, Bool, Bool-cases, Option, none, some, List, [], ◌∷◌, ◌++◌, arith, Str,
  has_key,
}
use mathlib.Core.Path.{subst}
use surql_go.Errors.{GoError, Result, ok, err, ◌>>=◌}
use surql_go.Schema.Clauses.{Texts}
use surql_go.Schema.Tables.{TableDefinition}
use surql_go.Migration.Diffs.{SchemaDiff, collect, index_by, added_dropped}
use surql_go.Migration.Diffs.Statements.{index_to_sql}
use surql_go.Migration.Diffs.Generators.{
  generate_add_index_diff, generate_drop_index_diff, generate_add_event_diff,
  generate_drop_event_diff, check_event,
}
use surql_go.Migration.Diffs.Tables.{single, diff_indexes, diff_events}

-- One diff goes back where the other goes forth.
abbrev pub Reverses : SchemaDiff → SchemaDiff → Type 0
Reverses d e = (e.forward ≡ d.backward) × (e.backward ≡ d.forward)

abbrev pub Undoes : List SchemaDiff → List SchemaDiff → Type 0
Undoes [] [] = Unit
Undoes [] (e ∷ es) = ⊥
Undoes (d ∷ ds) [] = ⊥
Undoes (d ∷ ds) (e ∷ es) = Reverses d e × Undoes ds es

Undoes-append :
    (ds es fs gs : List SchemaDiff) → Undoes ds es → Undoes fs gs → Undoes (ds ++ fs) (es ++ gs)
Undoes-append [] [] fs gs u v = v
Undoes-append [] (e ∷ es) fs gs u v = absurd u
Undoes-append (d ∷ ds) [] fs gs u v = absurd u
Undoes-append (d ∷ ds) (e ∷ es) fs gs u v = (u.0, Undoes-append ds es fs gs u.1 v)

-- Whatever one function makes of an element, the other undoes.
abbrev Opposite {ℓ} :
    {A : Type ℓ} → (A → Result (List SchemaDiff)) → (A → Result (List SchemaDiff)) → Type ℓ
Opposite {A = A} add drop =
    (a : A) (ds : List SchemaDiff)
    → add a ≡ ok ds
    → (es : List SchemaDiff) × (drop a ≡ ok es) × Undoes ds es

>>=-ok :
    (a b : Result (List SchemaDiff)) (ds : List SchemaDiff)
    → (a >>= λ xs. b >>= λ ys. ok (xs ++ ys)) ≡ ok ds
    → (xs ys : List SchemaDiff) × (a ≡ ok xs) × (b ≡ ok ys) × (ds ≡ xs ++ ys)
>>=-ok (err e) b ds h = absurd (ground (arith, h))
>>=-ok (ok xs) (err e) ds h = absurd (ground (arith, h))
>>=-ok (ok xs) (ok ys) ds h = (xs, ys, refl, refl, ground (arith, h))

-- The same diffs undone, with what was added and what was dropped in the other order
abbrev pub Undone : List SchemaDiff → List SchemaDiff → Type 0
Undone ds es =
    (p q p' q' : List SchemaDiff) × (ds ≡ p ++ q) × (es ≡ q' ++ p') × Undoes p p' × Undoes q q'

module _ {ℓ} {A : Type ℓ} where
  collect-Undoes :
      (skip : A → Bool) (add drop : A → Result (List SchemaDiff))
      → Opposite add drop
      → Opposite (collect skip add) (collect skip drop)
  unfolding collect
  collect-Undoes skip add drop opposite [] [] h = ([], refl, tt)
  collect-Undoes skip add drop opposite [] (d ∷ ds) h = absurd (ground (arith, h))
  collect-Undoes skip add drop opposite (a ∷ rest) ds h = elim (Bool-cases (skip a)) [
    | inl skipped ↦
        let (es, runs, undone) =
          collect-Undoes skip add drop opposite rest ds (ground (arith, h, skipped)) in
        (es, ground (arith, runs, skipped), undone)
    | inr kept ↦
        let (xs, ys, first, later, whole) =
          >>=-ok (add a) (collect skip add rest) ds (ground (arith, h, kept)) in
        let (es, runs, undone) = opposite a xs first in
        let (fs, runs', undone') = collect-Undoes skip add drop opposite rest ys later in
        (
          es ++ fs,
          ground (arith, runs, runs', kept),
          subst (λ l. Undoes l (es ++ fs)) (sym whole) (Undoes-append xs es ys fs undone undone'),
        )
  ]

  added_dropped-Undone :
      (name : A → Str) (add drop : A → Result (List SchemaDiff)) (olds news : List A)
      (ds : List SchemaDiff)
      → Opposite add drop
      → Opposite drop add
      → added_dropped name add drop olds news ≡ ok ds
      → (es : List SchemaDiff) × (added_dropped name add drop news olds ≡ ok es) × Undone ds es
  unfolding added_dropped
  added_dropped-Undone name add drop olds news ds forth back h =
      let (xs, ys, added, dropped, whole) =
        >>=-ok (collect (λ a. has_key (name a) (index_by name [] olds)) add news)
          (collect (λ a. has_key (name a) (index_by name [] news)) drop olds) ds h in
      let (xs', runs, undone) = collect-Undoes _ add drop forth news xs added in
      let (ys', runs', undone') = collect-Undoes _ drop add back olds ys dropped in
      (ys' ++ xs', ground (arith, runs, runs'), (xs, ys, xs', ys', whole, refl, undone, undone'))

single-Undoes :
    (m : Result Str) (f g : Str → SchemaDiff) (ds : List SchemaDiff)
    → ((sql : Str) → Reverses (f sql) (g sql))
    → single (m >>= λ sql. ok (f sql)) ≡ ok ds
    → (es : List SchemaDiff) × (single (m >>= λ sql. ok (g sql)) ≡ ok es) × Undoes ds es
single-Undoes (err e) f g ds reverses h = absurd (ground (arith, h))
single-Undoes (ok sql) f g [] reverses h = absurd (ground (arith, h))
single-Undoes (ok sql) f g (d ∷ ds) reverses h = (g sql ∷ [], refl, ground (arith, h, reverses sql))

-- An event is checked before its diff is made, in either direction.
checked-Undoes :
    (c : Option GoError) (d e : SchemaDiff) (ds : List SchemaDiff)
    → Reverses d e
    → single (elim c [ some bad ↦ err bad | none ↦ ok d ]) ≡ ok ds
    → (es : List SchemaDiff) × (single (elim c [ some bad ↦ err bad | none ↦ ok e ]) ≡ ok es)
      × Undoes ds es
checked-Undoes (some bad) d e ds r h = absurd (ground (arith, h))
checked-Undoes none d e [] r h = absurd (ground (arith, h))
checked-Undoes none d e (x ∷ ds) r h = (e ∷ [], refl, ground (arith, h, r))

added-Undoes :
    (table : Str)
    → Opposite
        (λ i. single (generate_add_index_diff table i))
        (λ i. single (generate_drop_index_diff table i))
unfolding generate_add_index_diff generate_drop_index_diff
added-Undoes table i ds h = single-Undoes (index_to_sql table i) _ _ ds (λ sql. (refl, refl)) h

dropped-Undoes :
    (table : Str)
    → Opposite
        (λ i. single (generate_drop_index_diff table i))
        (λ i. single (generate_add_index_diff table i))
unfolding generate_add_index_diff generate_drop_index_diff
dropped-Undoes table i ds h = single-Undoes (index_to_sql table i) _ _ ds (λ sql. (refl, refl)) h

-- DiffIndexes between two tables of one name, if it succeeds, succeeds the other way round, where
-- each diff has the two directions of its counterpart exchanged.
pub diff_indexes-Undone :
    (a b : TableDefinition) (ds : List SchemaDiff)
    → a.name ≡ b.name
    → diff_indexes a b ≡ ok ds
    → (es : List SchemaDiff) × (diff_indexes b a ≡ ok es) × Undone ds es
unfolding diff_indexes
diff_indexes-Undone a b ds named h = rw named (
    added_dropped-Undone (λ i. i.name) (λ i. single (generate_add_index_diff b.name i))
      (λ i. single (generate_drop_index_diff b.name i)) a.indexes b.indexes ds (added-Undoes b.name)
      (dropped-Undoes b.name) h)

module _ (x : Texts) where
  added_event-Undoes :
      (table : Str)
      → Opposite
          (λ e. single (generate_add_event_diff x table e))
          (λ e. single (generate_drop_event_diff x table e))
  unfolding generate_add_event_diff generate_drop_event_diff
  added_event-Undoes table e ds h = checked-Undoes (check_event x e) _ _ ds (refl, refl) h

  dropped_event-Undoes :
      (table : Str)
      → Opposite
          (λ e. single (generate_drop_event_diff x table e))
          (λ e. single (generate_add_event_diff x table e))
  unfolding generate_add_event_diff generate_drop_event_diff
  dropped_event-Undoes table e ds h = checked-Undoes (check_event x e) _ _ ds (refl, refl) h

  -- DiffEvents between two tables of one name, if it succeeds, succeeds the other way round, where
  -- each diff has the two directions of its counterpart exchanged.
  pub diff_events-Undone :
      (a b : TableDefinition) (ds : List SchemaDiff)
      → a.name ≡ b.name
      → diff_events x a b ≡ ok ds
      → (es : List SchemaDiff) × (diff_events x b a ≡ ok es) × Undone ds es
  unfolding diff_events
  diff_events-Undone a b ds named h = rw named (
      added_dropped-Undone (λ e. e.name) (λ e. single (generate_add_event_diff x b.name e))
        (λ e. single (generate_drop_event_diff x b.name e)) a.events b.events ds
        (added_event-Undoes b.name) (dropped_event-Undoes b.name) h)
