-- ===== src/Migration/Versions/Paths/Scanning.antt =====
-- One round of the search of Path: the neighbours of a version.
use surql_go.Prelude.{
  contains, ◌+◌, ◌≡◌, refl, Bool, true, false, not, ◌&&◌, ◌||◌, if◌then◌else◌, Bool-cases, inl, inr,
  some, List, [], ◌∷◌, ◌++◌, arith, length, length-append, Str, str_eq, str_eq_iff, GoMap, lookup,
}
use surql_go.Migration.Versions.{VersionNode}
use surql_go.Migration.Versions.Visiting.{NoRepeats}
use surql_go.Migration.Versions.Paths.{PathState, Scan, reached, waiting, scan, neighbours}

abbrev pub queued : Str → List PathState → Bool
queued c [] = false
queued c (s ∷ q) = if str_eq s.version c then true else queued c q

queued-append :
    (c : Str) (q : List PathState) (s : PathState)
    → queued c (q ++ s ∷ []) ≡ (queued c q || str_eq s.version c)
queued-append c [] s = ground arith
queued-append c (x ∷ q) s = ground (arith, queued-append c q s)

module _ {ℓ} {S : Type ℓ} (nodes : GoMap (VersionNode S)) (from : Str) where
  -- A path along the edges of the graph
  pub data Chain : List Str → Str → Type ℓ where
    start : Chain (from ∷ []) from
    extend :
        (p : List Str) (x y : Str) (n : VersionNode S)
        → Chain p x
        → lookup x nodes ≡ some n
        → contains y (neighbours n) ≡ true
        → Chain (p ++ y ∷ []) y

  -- Every waiting state has a path to its version.
  abbrev pub Chains : List PathState → Type ℓ
  Chains [] = Unit
  Chains (s ∷ q) = Chain s.path s.version × Chains q

  Chains-append :
      (q : List PathState) (s : PathState)
      → Chains q
      → Chain s.path s.version
      → Chains (q ++ s ∷ [])
  Chains-append [] s cs c = (c, tt)
  Chains-append (x ∷ q) s cs c = (cs.0, Chains-append q s cs.1 c)

  -- What a round has done to the queue and the visited versions
  pub record Scanned (to : Str) (ns : List Str) (queue : List PathState) (visited : List Str)
      (q : List PathState) (v : List Str) : Type ℓ where
    pub count : length q + length visited ≡ length queue + length v
    pub once : NoRepeats v
    pub seen : (c : Str) → contains c v ≡ (contains c visited || contains c ns)
    pub now :
        (c : Str) → queued c q ≡ (queued c queue || (contains c v && not (contains c visited)))
    pub chains : Chains q
    pub apart : contains to v ≡ false

  abbrev pub ScanFits : Str → List Str → List PathState → List Str → Scan → Type ℓ
  ScanFits to ns queue visited (reached p) = Chain p to
  ScanFits to ns queue visited (waiting q v) = Scanned to ns queue visited q v

  module _ (to : Str) (path : List Str) (x : Str) (n : VersionNode S) (along : Chain path x)
      (at : lookup x nodes ≡ some n) where
    abbrev state_of : Str → PathState
    state_of y = record { version = y; path = path ++ y ∷ [] }

    skip :
        (y : Str) (ns : List Str) (queue : List PathState) (visited : List Str) (r : Scan)
        → contains y visited ≡ true
        → ScanFits to ns queue visited r
        → ScanFits to (y ∷ ns) queue visited r
    unfolding contains
    skip y ns queue visited (reached p) seen s = s
    skip y ns queue visited (waiting q v) seen s = record {
      count = s.count;
      once = s.once;
      seen = λ c. ground (arith, s.seen c, str_eq_iff y c);
      now = s.now;
      chains = s.chains;
      apart = s.apart;
    }

    join :
        (y : Str) (ns : List Str) (queue : List PathState) (visited : List Str) (r : Scan)
        → contains y visited ≡ false
        → ScanFits to ns (queue ++ state_of y ∷ []) (y ∷ visited) r
        → ScanFits to (y ∷ ns) queue visited r
    unfolding contains
    join y ns queue visited (reached p) fresh s = s
    join y ns queue visited (waiting q v) fresh s = record {
      count = let many = s.count in omega (arith, length-append queue (state_of y ∷ []));
      once = s.once;
      seen = λ c. ground (arith, s.seen c, str_eq_iff y c);
      now = λ c.
          ground (arith, s.now c, s.seen c, str_eq_iff y c, queued-append c queue (state_of y));
      chains = s.chains;
      apart = s.apart;
    }

    pub scan-fits :
        (ns : List Str) (queue : List PathState) (visited : List Str)
        → ((c : Str) → contains c ns ≡ true → contains c (neighbours n) ≡ true)
        → NoRepeats visited
        → Chains queue
        → contains to visited ≡ false
        → ScanFits to ns queue visited (scan to path ns queue visited)
    unfolding scan contains
    scan-fits [] queue visited within once chains apart = record {
      count = refl;
      once = once;
      seen = λ c. ground arith;
      now = λ c. ground arith;
      chains = chains;
      apart = apart;
    }
    scan-fits (y ∷ ns) queue visited within once chains apart =
        let there : contains y (neighbours n) ≡ true = within y (ground (arith, str_eq_iff y y)) in
        let onward : Chain (path ++ y ∷ []) y = extend path x y n along at there in
        let rest = λ (c : Str) (m : contains c ns ≡ true). within c (ground arith) in
        elim (Bool-cases (contains y visited)) [
          | inl old ↦
              rw (old, scan)
                (skip y ns queue visited _ old (scan-fits ns queue visited rest once chains apart))
          | inr new ↦ elim (Bool-cases (str_eq y to)) [
            | inl end ↦ rw (new, end, scan) (rw (← (str_eq_iff y to).0 end) onward)
            | inr other ↦
                rw (new, other, scan)
                  (join y ns queue visited _ new (
                    scan-fits ns (queue ++ state_of y ∷ []) (y ∷ visited) rest (new, once)
                      (Chains-append queue (state_of y) chains onward) (ground arith)))
          ]
        ]
