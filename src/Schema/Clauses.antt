-- ===== src/Schema/Clauses.antt =====
-- What the definitions of pkg/surql/schema share: optional clauses of a statement, checks in order,
-- permission maps, and the functions of package strings that fold case and trim.
use surql_go.Prelude.{
  if◌then◌else◌, Bool, Option, none, some, List, [], ◌∷◌, ◌++◌, Str, bytes, is_empty, str_ltb,
  GoMap, lookup, keys, sort_by, map,
}
use surql_go.Errors.{GoError, new, validation}

-- strings.TrimSpace, strings.ToUpper and strings.ToLower
pub record Texts : Type 0 where
  pub trim_space : Str → Str
  pub to_upper : Str → Str
  pub to_lower : Str → Str

abbrev pub invalid : Option GoError
invalid = some (new validation)

-- if value != "" { b.WriteString(keyword); b.WriteString(value) }
abbrev pub clause : Str → Str → Str
clause keyword value = if is_empty value then [] else keyword ++ value

-- if flag { b.WriteString(keyword) }
abbrev pub flag_clause : Str → Bool → Str
flag_clause keyword b = if b then keyword else []

abbrev pub if_not_exists : Bool → Str
if_not_exists = flag_clause (bytes " IF NOT EXISTS")

module _ {ℓ} {A : Type ℓ} where
  -- The first error of a loop that checks each element
  unfoldable pub check_each : (A → Option GoError) → List A → Option GoError
  check_each check [] = none
  check_each check (a ∷ as_) =
      let rest = check_each check as_ in elim (check a) [ some e ↦ some e | none ↦ rest ]

-- m[k] of a map of strings, "" for a missing key
unfoldable pub text_at : GoMap Str → Str → Str
text_at m k = elim (lookup k m) [ none ↦ [] | some v ↦ v ]

module _ (x : Texts) where
  unfoldable pub permission_statement : Str → GoMap Str → Str → Str
  unfolding text_at
  permission_statement table perms k =
      bytes "DEFINE FIELD PERMISSIONS FOR "
      ++ (x.to_upper k
          ++ (bytes " ON TABLE " ++ (table ++ (bytes " WHERE " ++ (text_at perms k ++ bytes ";")))))

  unfoldable pub permission_statements : Str → GoMap Str → List Str
  unfolding permission_statement keys sort_by
  permission_statements table perms =
      map (permission_statement table perms) (sort_by str_ltb (keys perms))
