-- ===== src/Migration/Versions/Positions.antt =====
-- The place of a key among the entries of a map: writes keep it, new keys come last, and a deletion
-- keeps the order of the others. The version graph uses it as a measure: parents come first.
use surql_go.Prelude.{
  ℕ, suc, ◌<◌, ◌≡◌, ◌≢◌, if◌then◌else◌, none, some, [], ◌∷◌, arith, length, Str, str_eq, str_eq_iff,
  GoMap, lookup, insert, delete,
}

module _ {ℓ} {V : Type ℓ} where
  unfoldable pub position : Str → GoMap V → ℕ
  position k [] = 0
  position k ((j, v) ∷ m) = if str_eq j k then 0 else suc (position k m)

  pub position-lt : (k : Str) (m : GoMap V) {v : V} → lookup k m ≡ some v → position k m < length m
  unfolding lookup position
  position-lt k [] h = ground arith
  position-lt k ((j, w) ∷ m) {v} h = ground (arith, position-lt k m {v = v})

  pub position-insert_hit :
      (j k : Str) (v : V) (m : GoMap V) {w : V}
      → lookup k m ≡ some w
      → (position j (insert k v m) ≡ position j m)
  unfolding lookup insert position
  position-insert_hit j k v [] h = ground arith
  position-insert_hit j k v ((i, w) ∷ m) {w = u} h =
      ground (arith, str_eq_iff i k, str_eq_iff i j, position-insert_hit j k v m {w = u})

  pub position-insert_miss :
      (j k : Str) (v : V) (m : GoMap V) {w : V}
      → lookup j m ≡ some w
      → position j (insert k v m) ≡ position j m
  unfolding lookup insert position
  position-insert_miss j k v [] h = ground arith
  position-insert_miss j k v ((i, w) ∷ m) {w = u} h =
      ground (arith, str_eq_iff i k, str_eq_iff i j, position-insert_miss j k v m {w = u})

  pub position-insert_self :
      (k : Str) (v : V) (m : GoMap V) → lookup k m ≡ none → position k (insert k v m) ≡ length m
  unfolding lookup insert position
  position-insert_self k v [] h = ground (arith, str_eq_iff k k)
  position-insert_self k v ((i, w) ∷ m) h =
      ground (arith, str_eq_iff i k, position-insert_self k v m)

  pub position-delete :
      (i j k : Str) (m : GoMap V)
      → i ≢ k
      → j ≢ k
      → position i m < position j m
      → position i (delete k m) < position j (delete k m)
  unfolding delete position
  position-delete i j k [] p q h = ground arith
  position-delete i j k ((x, w) ∷ m) p q h =
      ground (arith, str_eq_iff x i, str_eq_iff x j, str_eq_iff x k, position-delete i j k m p q)
