-- ===== src/Query/Chains/Sound.antt =====
-- What the methods of pkg/surql/query/builder.go check of a query, and how one check keeps it.
use surql_go.Prelude.{
  if◌then◌else◌, ◌≡◌, refl, Bool, true, false, not, ◌&&◌, ◌||◌, Option, none, some, List, [], ◌∷◌,
  ◌++◌, arith, Str, bytes, is_empty, all_word, is_identifier, str_eq, GoMap,
}
use surql_go.Prelude.Int.{ℤ, pos, ltb_ℤ}
use surql_go.Errors.{Result, ok, err, new, validation, ◌>>=◌}
use surql_go.Types.Quoting.{Value}
use surql_go.Query.Builder.{
  Query, Operation, unset, select_op, insert_op, update_op, upsert_op, delete_op, relate_op,
  other_operation, new_query, valid_identifier, split_table_part,
}
use surql_go.Query.Mutations.{valid_keys}

abbrev pub is_target : Str → Bool
is_target t = valid_identifier (split_table_part t)

abbrev pub not_negative : Option ℤ → Bool
not_negative none = true
not_negative (some n) = not (ltb_ℤ n (pos 0))

abbrev pub are_directions : List (Str × Str) → Bool
are_directions [] = true
are_directions ((field, d) ∷ rest) =
    (str_eq d (bytes "ASC") || str_eq d (bytes "DESC")) && are_directions rest

-- What the operation has set
abbrev pub is_started : Operation → Str → Str → Str → Bool
is_started unset t a b = true
is_started select_op t a b = true
is_started insert_op t a b = is_target t
is_started update_op t a b = is_target t
is_started upsert_op t a b = is_target t
is_started delete_op t a b = is_target t
is_started relate_op t a b = is_target t && (is_target a && is_target b)
is_started other_operation t a b = false

-- The target, and what the operation has set
pub record IsStatement (o : Operation) (t a b : Str) : Type 0 where
  pub target : is_empty t || is_target t ≡ true
  pub started : is_started o t a b ≡ true

-- The data of INSERT, of UPDATE and UPSERT, and of RELATE
pub record AreKeyed (ins upd rel : GoMap Value) : Type 0 where
  pub inserted : valid_keys ins ≡ true
  pub updated : valid_keys upd ≡ true
  pub related : valid_keys rel ≡ true

pub record IsPaged (lim off : Option ℤ) (ord : List (Str × Str)) : Type 0 where
  pub limited : not_negative lim ≡ true
  pub skipped : not_negative off ≡ true
  pub ordered : are_directions ord ≡ true

abbrev pub IsSound : Query → Type 0
IsSound q =
    IsStatement q.operation q.table_name q.relate_from q.relate_to
    × AreKeyed q.insert_data q.update_data q.relate_data
    × IsPaged q.limit_value q.offset_value q.order_fields

pub new_query-IsSound : IsSound new_query
unfolding new_query valid_keys
new_query-IsSound = (
  record { target = refl; started = refl },
  record { inserted = refl; updated = refl; related = refl },
  record { limited = refl; skipped = refl; ordered = refl },
)

-- The result of a call, if there is one
abbrev pub GivesSound : Result Query → Type 0
GivesSound (ok q) = IsSound q
GivesSound (err e) = Unit

pub refused :
    (b : Bool) (r : Result Query)
    → (b ≡ false → GivesSound r)
    → GivesSound (if b then err (new validation) else r)
refused true r h = tt
refused false r h = h refl

pub accepted :
    (b : Bool) (r : Result Query)
    → (b ≡ true → GivesSound r)
    → GivesSound (if b then r else err (new validation))
accepted true r h = h refl
accepted false r h = tt

pub bound :
    {A : Type 0} (r : Result A) (f : A → Result Query)
    → ((a : A) → GivesSound (f a))
    → GivesSound (r >>= f)
bound (ok a) f h = h a
bound (err e) f h = tt

pub not-false : (b : Bool) → not b ≡ false → b ≡ true
not-false b h = ground arith

word-split_table_part : (s : Str) → all_word s ≡ true → split_table_part s ≡ s
unfolding split_table_part
word-split_table_part [] h = refl
word-split_table_part (c ∷ s) h = ground (arith, h, word-split_table_part s (ground (arith, h)))

pub identifier_target : (t : Str) → valid_identifier t ≡ true → is_target t ≡ true
unfolding valid_identifier is_identifier split_table_part
identifier_target [] h = h
identifier_target (c ∷ s) h = ground (arith, h, word-split_table_part s (ground (arith, h)))

pub selected : (q : Query) → IsSound q → IsSound (record q { operation = select_op })
selected q s = (record { target = s.0.target; started = refl }, s.1, s.2)

pub are_directions-append :
    (xs : List (Str × Str)) (f d : Str)
    → are_directions xs ≡ true
    → str_eq d (bytes "ASC") || str_eq d (bytes "DESC") ≡ true
    → are_directions (xs ++ (f, d) ∷ []) ≡ true
are_directions-append [] f d h k = ground (arith, h, k)
are_directions-append ((g, e) ∷ xs) f d h k =
    ground (arith, h, k, are_directions-append xs f d (ground (arith, h)) k)

-- A table that goes into a started query
pub retarget :
    (o : Operation) (t u a b : Str)
    → is_started o t a b ≡ true
    → is_target u ≡ true
    → is_started o u a b ≡ true
retarget unset t u a b h k = refl
retarget select_op t u a b h k = refl
retarget insert_op t u a b h k = k
retarget update_op t u a b h k = k
retarget upsert_op t u a b h k = k
retarget delete_op t u a b h k = k
retarget relate_op t u a b h k = ground (arith, h, k)
retarget other_operation t u a b h k = h

pub on_target :
    (o : Operation) (t a b : Str)
    → is_target t ≡ true
    → is_started o t a b ≡ true
    → IsStatement o t a b
on_target o t a b h k = record { target = ground (arith, h); started = k }
