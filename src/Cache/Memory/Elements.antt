-- ===== src/Cache/Memory/Elements.antt =====
-- Lemmas on lists of elements with distinct addresses and keys: what a search by key finds, and
-- what removing an element or the last element leaves.
use surql_go.Prelude.{
  ℕ, zero, suc, ◌+◌, ◌<◌, ◌≡◌, refl, sym, ◌≢◌, ◌==◌, if◌then◌else◌, inl, inr, Option, none, some,
  List, [], ◌∷◌, arith, length, take, Str, str_eq, str_eq_iff, Bool-cases,
}
use mathlib.Core.Path.{subst}
use surql_go.Cache.Memory.{Element, element, unlink, back}

module _ {ℓ κ} {A : Type ℓ} where
  abbrev pub All : (A → Type κ) → List A → Type κ
  All P [] = Unit
  All P (x ∷ xs) = P x × All P xs

module _ {ℓ} {V : Type ℓ} where
  abbrev pub Differs : Element V → Element V → Type 0
  Differs e f = (f.id ≢ e.id) × (f.entry.key ≢ e.entry.key)

  -- No two elements share an address or a key.
  abbrev pub Distinct : List (Element V) → Type 0
  Distinct [] = Unit
  Distinct (e ∷ l) = All (Differs e) l × Distinct l

  unfoldable pub find_key : Str → List (Element V) → Option (Element V)
  find_key k [] = none
  find_key k (e ∷ l) = if str_eq e.entry.key k then some e else find_key k l

  All-find_key :
      (P : Element V → Type 0) (k : Str) (l : List (Element V)) {e : Element V}
      → All P l
      → find_key k l ≡ some e
      → P e
  unfolding find_key
  All-find_key P k [] a h = ground arith
  All-find_key P k (f ∷ l) {e} a h = elim (Bool-cases (str_eq f.entry.key k)) [
    | inl here ↦ subst P (ground arith) a.0
    | inr other ↦ All-find_key P k l a.1 (ground arith)
  ]

  pub All-element :
      (P : Element V → Type 0) (i : ℕ) (l : List (Element V)) {e : Element V}
      → All P l
      → element i l ≡ some e
      → P e
  unfolding element
  All-element P i [] a h = ground arith
  All-element P i (f ∷ l) {e} a h = elim (Bool-cases (f.id == i)) [
    | inl here ↦ subst P (ground arith) a.0
    | inr other ↦ All-element P i l a.1 (ground arith)
  ]

  find_key-none_of_Differs :
      (k : Str) (f : Element V) (l : List (Element V))
      → All (Differs f) l
      → f.entry.key ≡ k
      → find_key k l ≡ none
  unfolding find_key
  find_key-none_of_Differs k f [] a h = refl
  find_key-none_of_Differs k f (g ∷ l) a h =
      ground (arith, str_eq_iff g.entry.key k, find_key-none_of_Differs k f l)

  pub element_of_key :
      (k : Str) (l : List (Element V)) {e : Element V}
      → Distinct l
      → find_key k l ≡ some e
      → (element e.id l ≡ some e) × (e.entry.key ≡ k)
  unfolding element find_key
  element_of_key k [] d h = ground arith
  element_of_key k (f ∷ l) {e} d h = ground (
    arith,
    str_eq_iff f.entry.key k,
    element_of_key k l {e = e},
    All-find_key (Differs f) k l {e = e},
  )

  pub key_of_element :
      (l : List (Element V)) {e : Element V}
      → Distinct l
      → element e.id l ≡ some e
      → find_key e.entry.key l ≡ some e
  unfolding element find_key
  key_of_element [] d h = ground arith
  key_of_element (f ∷ l) {e} d h = ground (
    arith,
    str_eq_iff f.entry.key e.entry.key,
    key_of_element l {e = e},
    All-element (Differs f) e.id l {e = e},
  )

  pub find_key-unlink :
      (k : Str) (l : List (Element V)) {e : Element V}
      → Distinct l
      → element e.id l ≡ some e
      → find_key k (unlink e.id l) ≡ (if str_eq e.entry.key k then none else find_key k l)
  unfolding element find_key unlink
  find_key-unlink k [] d h = ground arith
  find_key-unlink k (f ∷ l) {e} d h = ground (
    arith,
    str_eq_iff f.entry.key k,
    str_eq_iff e.entry.key k,
    find_key-unlink k l {e = e},
    find_key-none_of_Differs k f l,
    All-element (Differs f) e.id l {e = e},
  )

  pub length-unlink :
      (l : List (Element V)) {e : Element V}
      → element e.id l ≡ some e
      → length (unlink e.id l) + 1 ≡ length l
  unfolding element unlink
  length-unlink [] h = ground arith
  length-unlink (f ∷ l) {e} h = ground (arith, length-unlink l {e = e})

  pub All-unlink :
      (P : Element V → Type 0) (i : ℕ) (l : List (Element V)) → All P l → All P (unlink i l)
  unfolding unlink
  All-unlink P i [] a = a
  All-unlink P i (f ∷ l) a = elim (Bool-cases (f.id == i)) [
    | inl here ↦ rw here a.1
    | inr other ↦ rw other (a.0, All-unlink P i l a.1)
  ]

  pub Distinct-unlink : (i : ℕ) (l : List (Element V)) → Distinct l → Distinct (unlink i l)
  unfolding unlink
  Distinct-unlink i [] d = d
  Distinct-unlink i (f ∷ l) d = elim (Bool-cases (f.id == i)) [
    | inl here ↦ rw here d.1
    | inr other ↦ rw other (All-unlink (Differs f) i l d.0, Distinct-unlink i l d.1)
  ]

  -- What is left when the element at an address goes: no other has its address or its key.
  pub Differs-unlink :
      (l : List (Element V)) {e : Element V}
      → Distinct l
      → element e.id l ≡ some e
      → All (Differs e) (unlink e.id l)
  unfolding element unlink
  Differs-unlink [] d h = tt
  Differs-unlink (f ∷ l) {e} d h = elim (Bool-cases (f.id == e.id)) [
    | inl here ↦
        let same : f ≡ e = ground arith in rw here (subst (λ x. All (Differs x) l) same d.0)
    | inr other ↦
        let at : element e.id l ≡ some e = ground arith in
        let apart : Differs f e = All-element (Differs f) e.id l d.0 at in
        rw other ((λ p. apart.0 (sym p), λ p. apart.1 (sym p)), Differs-unlink l d.1 at)
  ]

  pub All-fresh :
      (e : Element V) (n : ℕ) (l : List (Element V))
      → All (λ x. x.id < n) l
      → find_key e.entry.key l ≡ none
      → e.id ≡ n
      → All (Differs e) l
  unfolding find_key
  All-fresh e n [] a h p = tt
  All-fresh e n (f ∷ l) a h p = elim (Bool-cases (str_eq f.entry.key e.entry.key)) [
    | inl same ↦ absurd (ground arith)
    | inr other ↦ (
      (omega arith, λ q. cc ((str_eq_iff f.entry.key e.entry.key).1 q)),
      All-fresh e n l a.1 (ground arith) p,
    )
  ]

  pub All-weaken :
      (P Q : Element V → Type 0) (l : List (Element V))
      → ((e : Element V) → P e → Q e)
      → All P l
      → All Q l
  All-weaken P Q [] f a = tt
  All-weaken P Q (e ∷ l) f a = (f e a.0, All-weaken P Q l f a.1)

  -- The last element: removing it leaves all the others, in order.
  pub unlink-back :
      (n : ℕ) (l : List (Element V))
      → Distinct l
      → length l ≡ suc n
      → (e : Element V) × (back l ≡ some e) × (element e.id l ≡ some e) × (unlink e.id l ≡ take n l)
  unfolding back element unlink
  unlink-back n [] d h = absurd (omega arith)
  unlink-back zero (e ∷ []) d h = (e, refl, ground arith, ground arith)
  unlink-back (suc n) (e ∷ []) d h = absurd (omega arith)
  unlink-back zero (e ∷ f ∷ l) d h = absurd (omega arith)
  unlink-back (suc n) (e ∷ f ∷ l) d h =
      let (x, last, at, rest) = unlink-back n (f ∷ l) d.1 (omega arith) in
      let apart : Differs e x = All-element (Differs e) x.id (f ∷ l) d.0 at in
      (x, last, ground arith, ground arith)
