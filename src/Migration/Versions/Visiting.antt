-- ===== src/Migration/Versions/Visiting.antt =====
-- Lists without repetitions, and the visited versions of a search in versioning.go.
use surql_go.Prelude.{
  contains, ◌≤◌, ◌<◌, ◌≡◌, refl, true, false, not, ◌&&◌, ◌||◌, Bool-cases, inl, inr, some, List, [],
  ◌∷◌, ◌++◌, arith, length, Str, str_eq_iff, str_eq_refl, GoMap, lookup, delete, lookup-delete,
}
use surql_go.Migration.Versions.{unseen}

abbrev pub NoRepeats : List Str → Type 0
NoRepeats [] = Unit
NoRepeats (x ∷ xs) = (contains x xs ≡ false) × NoRepeats xs

pub contains-append :
    (c : Str) (xs ys : List Str) → contains c (xs ++ ys) ≡ (contains c xs || contains c ys)
unfolding contains
contains-append c [] ys = refl
contains-append c (x ∷ xs) ys = ground (arith, contains-append c xs ys)

pub contains-unseen :
    (c : Str) (visited cs : List Str)
    → contains c (unseen visited cs) ≡ (contains c cs && not (contains c visited))
unfolding contains unseen
contains-unseen c visited [] = refl
contains-unseen c visited (x ∷ cs) =
    ground (arith, str_eq_iff x c, contains-unseen c visited cs, contains-unseen c (x ∷ visited) cs)

-- What is new can join what has been visited.
pub unseen-NoRepeats :
    (visited old cs : List Str)
    → NoRepeats old
    → ((c : Str) → contains c old ≡ true → contains c visited ≡ true)
    → NoRepeats (unseen visited cs ++ old)
unfolding unseen contains
unseen-NoRepeats visited old [] d within = d
unseen-NoRepeats visited old (x ∷ cs) d within = elim (Bool-cases (contains x visited)) [
  | inl seen ↦ rw (seen, unseen) (unseen-NoRepeats visited old cs d within)
  | inr fresh ↦
      let rest = unseen-NoRepeats (x ∷ visited) old cs d (λ c m. ground (arith, within c)) in
      rw (fresh, unseen)
        (
          ground (
            arith,
            contains-append x (unseen (x ∷ visited) cs) old,
            contains-unseen x (x ∷ visited) cs,
            str_eq_refl x,
            within x,
          ),
          rest,
        )
]

length-delete-le {ℓ} : {X : Type ℓ} (k : Str) (m : GoMap X) → length (delete k m) ≤ length m
unfolding delete
length-delete-le k [] = omega arith
length-delete-le k ((j, x) ∷ m) = ground (arith, length-delete-le k m)

length-delete-lt {ℓ} :
    {X : Type ℓ} (k : Str) (m : GoMap X) (x : X)
    → lookup k m ≡ some x
    → length (delete k m) < length m
unfolding delete lookup
length-delete-lt k [] x h = absurd (ground (arith, h))
length-delete-lt k ((j, y) ∷ m) x h = ground (arith, length-delete-le k m, length-delete-lt k m x)

-- There are at most as many different keys as entries.
pub length-keys-le {ℓ} :
    {X : Type ℓ} (ks : List Str) (m : GoMap X)
    → NoRepeats ks
    → ((k : Str) → contains k ks ≡ true → (x : X) × (lookup k m ≡ some x))
    → length ks ≤ length m
unfolding contains
length-keys-le [] m d there = omega arith
length-keys-le (k ∷ ks) m d there =
    let (x, at) = there k (ground (arith, str_eq_refl k)) in
    let less = length-delete-lt k m x at in
    let rest = length-keys-le ks (delete k m) d.1 (λ j within.
      let (y, hit) = there j (ground arith) in
      (y, ground (arith, lookup-delete k j m, str_eq_iff k j, d))) in
    omega arith
