-- ===== src/Schema/Drift/Spaces.antt =====
-- When two expressions are the same for normalizeExpression of pkg/surql/schema/validator.go. What
-- its callee strings.Fields gives is a parameter, of which its documentation is required.
use surql_go.Prelude.{
  ◌≡◌, ◌≢◌, ◌↔◌, ◌⊎◌, inl, inr, refl, sym, ap, ◌∙◌, List, [], ◌∷◌, ◌++◌, arith, Str, bytes, join,
  Every,
}
use surql_go.Schema.Drift.{normalize_expression}

-- No byte of the text is a space.
abbrev pub IsUnbroken : Str → Type 0
IsUnbroken w = Every (λ b. b ≢ b' ') w

abbrev pub IsWord : Str → Type 0
IsWord w = (w ≢ []) × IsUnbroken w

-- What is used of the documentation of strings.Fields: no substring that it gives is empty, and as
-- the text is split at all white space, none holds a space.
pub record FieldsLaws (words : Str → List Str) : Type 0 where
  pub all_words : (s : Str) → Every IsWord (words s)

-- What join puts after its first element
abbrev tail_text : List Str → Str
tail_text [] = []
tail_text (w ∷ ws) = bytes " " ++ join (w ∷ ws) (bytes " ")

join-cons : (w : Str) (ws : List Str) → join (w ∷ ws) (bytes " ") ≡ w ++ tail_text ws
unfolding join
join-cons [] [] = refl
join-cons (c ∷ w) [] = ap (λ t. c ∷ t) (join-cons w [])
join-cons w (v ∷ ws) = refl

-- A text that is empty or starts with a space
abbrev IsTail : Str → Type 0
IsTail t = (t ≡ []) ⊎ ((s : Str) × (t ≡ b' ' ∷ s))

tail_text-IsTail : (ws : List Str) → IsTail (tail_text ws)
tail_text-IsTail [] = inl refl
tail_text-IsTail (w ∷ ws) = inr (_, refl)

unbroken_prefix :
    (v w s t : Str)
    → IsUnbroken v
    → IsUnbroken w
    → IsTail s
    → IsTail t
    → v ++ s ≡ w ++ t
    → (v ≡ w) × (s ≡ t)
unbroken_prefix [] [] s t p q a b e = (refl, e)
unbroken_prefix [] (c ∷ w) s t p q (inl none_left) b e = absurd (ground arith)
unbroken_prefix [] (c ∷ w) s t p q (inr (r, starts)) b e =
    let same : c ≡ b' ' = ground arith in absurd (q.0 same)
unbroken_prefix (c ∷ v) [] s t p q a (inl none_left) e = absurd (ground arith)
unbroken_prefix (c ∷ v) [] s t p q a (inr (r, starts)) e =
    let same : c ≡ b' ' = ground arith in absurd (p.0 same)
unbroken_prefix (c ∷ v) (d ∷ w) s t p q a b e =
    let first : c ≡ d = ground arith in
    let (rest, left) = unbroken_prefix v w s t p.1 q.1 a b (ground arith) in
    (rw (first, rest) refl, left)

word-ne : (w s : Str) → w ≢ [] → w ++ s ≢ []
word-ne [] s h e = h refl
word-ne (c ∷ w) s h e = ground (arith, e)

join-injective :
    (vs ws : List Str)
    → Every IsWord vs
    → Every IsWord ws
    → join vs (bytes " ") ≡ join ws (bytes " ")
    → vs ≡ ws
unfolding join
join-injective [] [] p q e = refl
join-injective [] (w ∷ ws) p q e = absurd (word-ne w _ q.0.0 (sym (e ∙ join-cons w ws)))
join-injective (v ∷ vs) [] p q e = absurd (word-ne v _ p.0.0 (sym (join-cons v vs) ∙ e))
join-injective (v ∷ vs) (w ∷ ws) p q e =
    let (same, tails) =
      unbroken_prefix v w (tail_text vs) (tail_text ws) p.0.1 q.0.1 (tail_text-IsTail vs)
        (tail_text-IsTail ws) (sym (join-cons v vs) ∙ e ∙ join-cons w ws) in
    rw (same, rest vs ws tails (λ h. join-injective vs ws p.1 q.1 h)) refl
  where
    rest :
        (xs ys : List Str)
        → tail_text xs ≡ tail_text ys
        → (join xs (bytes " ") ≡ join ys (bytes " ") → xs ≡ ys)
        → xs ≡ ys
    rest [] [] h f = refl
    rest [] (y ∷ ys) h f = absurd (ground (arith, h))
    rest (x ∷ xs) [] h f = absurd (ground (arith, h))
    rest (x ∷ xs) (y ∷ ys) h f = f (ground (arith, h))

-- Two expressions are normalised to the same text exactly if they have the same words.
pub normalize_expression_iff :
    (words : Str → List Str) (a b : Str)
    → FieldsLaws words
    → (normalize_expression words a ≡ normalize_expression words b) ↔ (words a ≡ words b)
unfolding normalize_expression
normalize_expression_iff words a b laws = (
  λ h. join-injective (words a) (words b) (laws.all_words a) (laws.all_words b) h,
  λ h. ap (λ ws. join ws (bytes " ")) h,
)
