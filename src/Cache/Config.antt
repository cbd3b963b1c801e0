-- ===== src/Cache/Config.antt =====
-- pkg/surql/cache/config.go: the configuration and its validation.
use surql_go.Prelude.{◌==◌, Bool, true, false, Option, none, some, [], ◌∷◌, Str, bytes}
use surql_go.Prelude.Int.{ℤ, pos, negsuc}
use surql_go.Errors.{GoError, new, validation}
use surql_go.Cache.Memory.{default_max_size, default_ttl_ns}

-- The type is a string in the source: `other_backend` is any value but the two constants.
pub data BackendKind : Type 0 where
  memory redis : BackendKind
  other_backend : Str → BackendKind

pub record CacheConfig : Type 0 where
  pub enabled : Bool
  pub backend : BackendKind
  pub default_ttl : ℤ
  pub max_size : ℤ
  pub redis_url : Str
  pub key_prefix : Str

abbrev pub default_config : CacheConfig
default_config = record {
  enabled = true;
  backend = memory;
  default_ttl = pos default_ttl_ns;
  max_size = pos default_max_size;
  redis_url = bytes "redis://localhost:6379";
  key_prefix = bytes "surql:";
}

-- `n <= 0`
abbrev pub not_positive : ℤ → Bool
not_positive (pos n) = n == 0
not_positive (negsuc _) = true

abbrev pub invalid : Option GoError
invalid = some (new validation)

-- The checks of Validate after the first switch
unfoldable pub validate_sizes : CacheConfig → Option GoError
validate_sizes c = elim (not_positive c.default_ttl) [
  | true ↦ invalid
  | false ↦ elim (not_positive c.max_size) [
    | true ↦ invalid
    | false ↦ elim c.backend [
      | memory ↦ none
      | other_backend _ ↦ none
      | redis ↦ elim c.redis_url [ [] ↦ invalid | x ∷ xs ↦ none ]
    ]
  ]
]

-- (CacheConfig).Validate
unfoldable pub validate : CacheConfig → Option GoError
unfolding validate_sizes
validate c = elim c.backend [
  | memory ↦ validate_sizes c
  | redis ↦ validate_sizes c
  | other_backend _ ↦ invalid
]
