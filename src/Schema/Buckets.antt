-- ===== src/Schema/Buckets.antt =====
-- pkg/surql/schema/bucket.go: bucket definitions, their checks, and DEFINE, REMOVE and ALTER BUCKET.
use surql_go.Prelude.{
  if◌then◌else◌, Bool, true, false, not, Option, none, some, [], ◌∷◌, ◌++◌, Str, bytes, is_empty,
  is_identifier, str_eq, str_ltb, join, map, keys, sort_by, GoMap, lookup,
}
use surql_go.Errors.{GoError}
use surql_go.Schema.Clauses.{Texts, invalid, clause, flag_clause, text_at}

pub record BucketDefinition : Type 0 where
  pub name : Str
  pub backend : Str
  pub read_only : Bool
  pub permissions : GoMap Str
  pub comment : Str

abbrev pub zero_bucket : BucketDefinition
zero_bucket = record { name = []; backend = []; read_only = false; permissions = []; comment = [] }

pub data DefineMode : Type 0 where
  plain if_absent overwrite : DefineMode

-- A field `none` is left unchanged.
pub record AlterBucketChange : Type 0 where
  pub read_only : Option Bool
  pub backend : Option Str
  pub drop_backend : Bool
  pub permissions : Option (GoMap Str)
  pub comment : Option Str
  pub drop_comment : Bool

abbrev mode_clause : DefineMode → Str
mode_clause plain = []
mode_clause if_absent = bytes " IF NOT EXISTS"
mode_clause overwrite = bytes " OVERWRITE"

-- keyword "value"
abbrev pub quoted : Str → Str → Str
quoted keyword value = keyword ++ (bytes " \"" ++ (value ++ bytes "\""))

unfoldable pub alter_read_only : Option Bool → Str
alter_read_only none = []
alter_read_only (some true) = bytes " READONLY"
alter_read_only (some false) = bytes " DROP READONLY"

-- The switches for the backend and for the comment
unfoldable pub alter_text : Str → Bool → Option Str → Str
alter_text keyword true value = bytes " DROP" ++ keyword
alter_text keyword false none = []
alter_text keyword false (some value) = quoted keyword value

module _ (x : Texts) where
  unfoldable pub validate_bucket : BucketDefinition → Option GoError
  unfolding is_identifier
  validate_bucket b =
      if is_empty b.name
      then invalid
      else if not (is_identifier b.name)
      then invalid
      else if is_empty (x.trim_space b.backend)
      then invalid
      else none

  unfoldable pub permission_part : GoMap Str → Str → Str
  unfolding text_at
  permission_part perms action =
      bytes "FOR " ++ (x.to_lower action ++ (bytes " WHERE " ++ text_at perms action))

  unfoldable pub permission_list : GoMap Str → Str
  unfolding permission_part keys sort_by join
  permission_list perms =
      bytes "PERMISSIONS "
      ++ join (map (permission_part perms) (sort_by str_ltb (keys perms))) (bytes " ")

  -- The blanket forms of a map with one entry
  unfoldable pub blanket : GoMap Str → Option Str
  unfolding str_eq lookup
  blanket [] = none
  blanket (p ∷ q ∷ ps) = none
  blanket (p ∷ []) = elim (lookup (bytes "*") (p ∷ [])) [
    | none ↦ none
    | some expr ↦
        let folded = x.to_upper (x.trim_space expr) in
        if str_eq folded (bytes "FULL")
        then some (bytes "PERMISSIONS FULL")
        else if str_eq folded (bytes "NONE")
        then some (bytes "PERMISSIONS NONE")
        else none
  ]

  unfoldable pub permissions_clause : GoMap Str → Str
  unfolding blanket permission_list
  permissions_clause [] = []
  permissions_clause (p ∷ ps) = elim (blanket (p ∷ ps)) [
    | some text ↦ text
    | none ↦ permission_list (p ∷ ps)
  ]

  unfoldable pub bucket_surql : BucketDefinition → DefineMode → Str
  unfolding permissions_clause
  bucket_surql b mode =
      bytes "DEFINE BUCKET"
      ++ (mode_clause mode
          ++ (bytes " "
              ++ (b.name
                  ++ (quoted (bytes " BACKEND") b.backend
                      ++ (flag_clause (bytes " READONLY") b.read_only
                          ++ (clause (bytes " ") (permissions_clause b.permissions)
                              ++ ((if is_empty b.comment
                                    then []
                                    else quoted (bytes " COMMENT") b.comment)
                                  ++ bytes ";")))))))

  unfoldable pub alter_permissions : Option (GoMap Str) → Str
  unfolding permissions_clause
  alter_permissions none = []
  alter_permissions (some perms) = clause (bytes " ") (permissions_clause perms)

  unfoldable pub alter_bucket_surql : Str → AlterBucketChange → Bool → Str
  unfolding alter_read_only alter_text alter_permissions
  alter_bucket_surql name change if_exists =
      bytes "ALTER BUCKET"
      ++ (flag_clause (bytes " IF EXISTS") if_exists
          ++ (bytes " "
              ++ (name
                  ++ (alter_read_only change.read_only
                      ++ (alter_text (bytes " BACKEND") change.drop_backend change.backend
                          ++ (alter_permissions change.permissions
                              ++ (alter_text (bytes " COMMENT") change.drop_comment change.comment
                                  ++ bytes ";")))))))

unfoldable pub remove_bucket_surql : Str → Str
remove_bucket_surql name = bytes "REMOVE BUCKET " ++ (name ++ bytes ";")
