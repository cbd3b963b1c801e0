-- ===== src/Migration/Diffs/Separators.antt =====
-- What the guard on event expressions of diff.go lets through.
use surql_go.Prelude.{
  ℕ, ◌≡◌, refl, true, false, none, [], ◌∷◌, ◌++◌, arith, Str, bytes, is_word, all_word, str_eq,
  has_prefix, has_suffix, has_substring,
}
use surql_go.Schema.Clauses.{Texts}
use surql_go.Migration.Diffs.Statements.{validate_event_expression}

-- Words hold nothing that begins with another character.
has_substring-words :
    (a rest p : Str) (q : ℕ)
    → all_word a ≡ true
    → is_word q ≡ false
    → has_substring (a ++ rest) (q ∷ p) ≡ has_substring rest (q ∷ p)
unfolding has_substring has_prefix
has_substring-words [] rest p q h n = refl
has_substring-words (c ∷ a) rest p q h n = ground (arith, has_substring-words a rest p q)

has_substring-word :
    (a p : Str) (q : ℕ) → all_word a ≡ true → is_word q ≡ false → has_substring a (q ∷ p) ≡ false
unfolding has_substring has_prefix
has_substring-word [] p q h n = refl
has_substring-word (c ∷ a) p q h n = ground (arith, has_substring-word a p q)

has_suffix-words :
    (a rest : Str)
    → all_word a ≡ true
    → has_suffix (a ++ b';' ∷ rest) (bytes ";") ≡ has_suffix (b';' ∷ rest) (bytes ";")
unfolding has_suffix str_eq
has_suffix-words [] rest h = refl
has_suffix-words (c ∷ a) rest h = ground (arith, has_suffix-words a rest)

has_suffix-word : (a : Str) → all_word a ≡ true → has_suffix a (bytes ";") ≡ false
unfolding has_suffix str_eq
has_suffix-word [] h = refl
has_suffix-word (c ∷ a) h = ground (arith, has_suffix-word a)

module _ (x : Texts) where
  -- The guard passes two words with nothing but a semicolon between them, if TrimSpace leaves them as
  -- they are.
  pub separator_passes :
      (a b : Str) (c : ℕ)
      → all_word a ≡ true
      → all_word (c ∷ b) ≡ true
      → x.trim_space (a ++ b';' ∷ c ∷ b) ≡ a ++ b';' ∷ c ∷ b
      → validate_event_expression x (a ++ b';' ∷ c ∷ b) ≡ none
  unfolding validate_event_expression has_substring has_prefix has_suffix str_eq
  separator_passes a b c first second trimmed = rw trimmed (
      ground (
        arith,
        has_substring-words a (b';' ∷ c ∷ b) (bytes " ") b';' first refl,
        has_substring-words a (b';' ∷ c ∷ b) (bytes "--") b';' first refl,
        has_substring-words a (b';' ∷ c ∷ b) (bytes "-") b'-' first refl,
        has_substring-word (c ∷ b) (bytes " ") b';' second refl,
        has_substring-word (c ∷ b) (bytes "--") b';' second refl,
        has_substring-word (c ∷ b) (bytes "-") b'-' second refl,
        has_suffix-words a (c ∷ b) first,
        has_suffix-word (c ∷ b) second,
      ))
