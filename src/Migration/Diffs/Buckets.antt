-- ===== src/Migration/Diffs/Buckets.antt =====
-- DiffBuckets of diff.go, with the change that ALTER BUCKET applies.
use surql_go.Prelude.{
  if◌then◌else◌, Bool, false, not, ◌&&◌, Option, none, some, List, [], ◌∷◌, ◌++◌, Str, bytes,
  is_empty, str_eq, GoMap,
}
use surql_go.Errors.{Result, ok}
use surql_go.Schema.Clauses.{Texts}
use surql_go.Schema.Buckets.{
  BucketDefinition, zero_bucket, AlterBucketChange, plain, bucket_surql, remove_bucket_surql,
  alter_bucket_surql,
}
use surql_go.Migration.Diffs.{
  DiffOperation, add_bucket, drop_bucket, modify_bucket, SchemaDiff, diff_named,
}
use surql_go.Migration.Diffs.Tables.{bool_eq, permissions_equal}

unfoldable pub buckets_equal : BucketDefinition → BucketDefinition → Bool
unfolding str_eq permissions_equal
buckets_equal a b =
    str_eq a.name b.name
    && str_eq a.backend b.backend
    && bool_eq a.read_only b.read_only
    && str_eq a.comment b.comment
    && permissions_equal a.permissions b.permissions

-- The new text, unless it is as before or is cleared
unfoldable pub changed_text : Str → Str → Option Str
unfolding str_eq
changed_text from to = if not (str_eq from to) && not (is_empty to) then some to else none

unfoldable pub cleared_text : Str → Str → Bool
unfolding str_eq
cleared_text from to = not (str_eq from to) && is_empty to

-- A nil map of permissions is an empty one.
unfoldable pub bucket_alter_change : BucketDefinition → BucketDefinition → AlterBucketChange
unfolding changed_text cleared_text permissions_equal
bucket_alter_change from to = record {
  read_only = if bool_eq from.read_only to.read_only then none else some to.read_only;
  backend = changed_text from.backend to.backend;
  drop_backend = cleared_text from.backend to.backend;
  permissions =
      if permissions_equal from.permissions to.permissions then none else some to.permissions;
  comment = changed_text from.comment to.comment;
  drop_comment = cleared_text from.comment to.comment;
}

abbrev bucket_diff : DiffOperation → Str → Str → Str → Str → GoMap Str → SchemaDiff
bucket_diff operation name verb forward backward details = record {
  operation = operation;
  table = [];
  field = [];
  index = [];
  event = [];
  bucket = name;
  description = verb ++ (bytes " bucket " ++ name);
  forward = forward;
  backward = backward;
  details = details;
}

module _ (x : Texts) where
  unfoldable pub generate_add_bucket_diff : BucketDefinition → SchemaDiff
  unfolding bucket_surql remove_bucket_surql
  generate_add_bucket_diff b =
      bucket_diff add_bucket b.name (bytes "Add") (bucket_surql x b plain)
        (remove_bucket_surql b.name) ((bytes "backend", b.backend) ∷ [])

  unfoldable pub generate_drop_bucket_diff : BucketDefinition → SchemaDiff
  unfolding bucket_surql remove_bucket_surql
  generate_drop_bucket_diff b =
      bucket_diff drop_bucket b.name (bytes "Drop") (remove_bucket_surql b.name)
        (bucket_surql x b plain) ((bytes "backend", b.backend) ∷ [])

  unfoldable pub generate_modify_bucket_diff : BucketDefinition → BucketDefinition → SchemaDiff
  unfolding alter_bucket_surql bucket_alter_change
  generate_modify_bucket_diff old_b new_b =
      bucket_diff modify_bucket new_b.name (bytes "Modify")
        (alter_bucket_surql x new_b.name (bucket_alter_change old_b new_b) false)
        (alter_bucket_surql x new_b.name (bucket_alter_change new_b old_b) false)
        ((bytes "old_backend", old_b.backend) ∷ (bytes "new_backend", new_b.backend) ∷ [])

  unfoldable pub diff_buckets :
      Option BucketDefinition → Option BucketDefinition → Result (List SchemaDiff)
  unfolding generate_add_bucket_diff generate_drop_bucket_diff generate_modify_bucket_diff
      buckets_equal
  diff_buckets none none = ok []
  diff_buckets none (some b) = ok (generate_add_bucket_diff b ∷ [])
  diff_buckets (some b) none = ok (generate_drop_bucket_diff b ∷ [])
  diff_buckets (some a) (some b) =
      if buckets_equal a b then ok [] else ok (generate_modify_bucket_diff a b ∷ [])

  unfoldable pub diff_bucket_sets :
      List BucketDefinition → List BucketDefinition → Result (List SchemaDiff)
  unfolding diff_named diff_buckets
  diff_bucket_sets code db =
      diff_named (λ b. b.name) zero_bucket (λ b. diff_buckets none (some b))
        (λ b. diff_buckets (some b) none) (λ a b. diff_buckets (some a) (some b)) db code
