-- ===== src/Detect/Select/Cover.antt =====
-- What `preferLonger` drops overlaps a span at least as long that it keeps.
use cold_harbour.Common.{
  ◌+◌, ◌≤◌, ◌<◌, ◌≡◌, inl, inr, true, false, List, [], ◌∷◌, arith, All, Any, Bool-cases, Any-snoc,
  Any-append, All-Any, sort, insert_by, insert_by-All, sort-Any,
}
use cold_harbour.Detect.Span.{Span}
use cold_harbour.Detect.Select.Disjoint.{consider-All}
use cold_harbour.Detect.Select.{
  earlier, overlaps, hits, consider, choose, prefer_longer, longer_first,
}

-- `a` is at least as long as `b`.
abbrev pub AsLong : Span → Span → Type 0
AsLong a b = b.stop + a.start ≤ a.stop + b.start

-- A kept span that overlaps `s` and is at least as long; `s` itself, if it is kept.
abbrev pub Covers : Span → Span → Type 0
Covers s c = (overlaps s c ≡ true) × AsLong c s

abbrev Descending : List Span → Type 0
Descending [] = Unit {0}
Descending (s ∷ ss) = All (AsLong s) ss × Descending ss

AsLong-trans : (a b c : Span) → AsLong a b → AsLong b c → AsLong a c
AsLong-trans a b c p q = omega arith

AsLong-All : (a b : Span) (ss : List Span) → AsLong a b → All (AsLong b) ss → All (AsLong a) ss
AsLong-All a b [] p h = tt
AsLong-All a b (s ∷ ss) p h = (omega arith, AsLong-All a b ss p h.1)

longer_first-AsLong : (a b : Span) → longer_first a b ≡ true → AsLong a b
unfolding longer_first
longer_first-AsLong a b h = ground arith

longer_first-AsLong_else : (a b : Span) → longer_first a b ≡ false → AsLong b a
unfolding longer_first
longer_first-AsLong_else a b h = ground arith

insert-Descending :
    (s : Span) (ss : List Span) → Descending ss → Descending (insert_by longer_first s ss)
unfolding insert_by
insert-Descending s [] d = (tt, tt)
insert-Descending s (c ∷ cs) d = elim (Bool-cases (longer_first c s)) [
  | inl e ↦ rw e (
    insert_by-All (AsLong c) longer_first s cs (longer_first-AsLong c s e) d.0,
    insert-Descending s cs d.1,
  )
  | inr e ↦ let p = longer_first-AsLong_else c s e in rw e ((p, AsLong-All s c cs p d.0), d)
]

sort-Descending : (ss : List Span) → Descending (sort longer_first ss)
unfolding sort
sort-Descending [] = tt
sort-Descending (s ∷ ss) = insert-Descending s (sort longer_first ss) (sort-Descending ss)

-- Every chosen span is at least as long as every span that is still to come.
abbrev Ahead : List Span → List Span → Type 0
Ahead cs = All (λ s. All (λ c. AsLong c s) cs)

consider-Ahead :
    (sp : Span) (cs rest : List Span)
    → All (AsLong sp) rest
    → Ahead cs rest
    → Ahead (consider sp cs) rest
consider-Ahead sp cs [] l a = tt
consider-Ahead sp cs (s ∷ rest) l a =
    (consider-All (λ c. AsLong c s) sp cs l.0 a.0, consider-Ahead sp cs rest l.1 a.1)

hits-Any :
    (sp : Span) (cs : List Span)
    → hits sp cs ≡ true
    → All (λ c. AsLong c sp) cs
    → Any (Covers sp) cs
unfolding hits
hits-Any sp [] h a = cc
hits-Any sp (c ∷ cs) h a = ground (arith, hits-Any sp cs)

consider-Any :
    (sp : Span) (cs : List Span)
    → sp.start < sp.stop
    → All (λ c. AsLong c sp) cs
    → Any (Covers sp) (consider sp cs)
unfolding consider
consider-Any sp cs p a = elim (Bool-cases (hits sp cs)) [
  | inl e ↦ ground (arith, hits-Any sp cs e a)
  | inr e ↦ ground (arith, Any-snoc (Covers sp) cs sp)
]

module _ (P : Span → Type 0) where
  consider-Any_old : (sp : Span) (cs : List Span) → Any P cs → Any P (consider sp cs)
  unfolding consider
  consider-Any_old sp cs h = ground (arith, Any-append P cs (sp ∷ []) h)

  choose-Any_old : (spans cs : List Span) → Any P cs → Any P (choose spans cs)
  unfolding choose
  choose-Any_old [] cs h = h
  choose-Any_old (sp ∷ rest) cs h = choose-Any_old rest (consider sp cs) (consider-Any_old sp cs h)

-- What `choose` makes of the spans to come.
abbrev Covered : List Span → Span → Type 0
Covered kept s = s.start < s.stop → Any (Covers s) kept

choose-Covered :
    (spans cs : List Span)
    → Descending spans
    → Ahead cs spans
    → All (Covered (choose spans cs)) spans
unfolding choose
choose-Covered [] cs d a = tt
choose-Covered (sp ∷ rest) cs d a = (
  λ p. choose-Any_old (Covers sp) rest (consider sp cs) (consider-Any sp cs p a.0),
  choose-Covered rest (consider sp cs) d.1 (consider-Ahead sp cs rest d.0 a.1),
)

Ahead-nil : (ss : List Span) → Ahead [] ss
Ahead-nil [] = tt
Ahead-nil (s ∷ ss) = (tt, Ahead-nil ss)

-- Every span given that is not empty is kept, or a kept span that is at least as long overlaps it:
-- no detection is dropped without a longer one in its place.
pub prefer_longer-Covers :
    (spans : List Span) (s : Span)
    → Any (λ t. t ≡ s) spans
    → s.start < s.stop
    → Any (Covers s) (prefer_longer spans)
unfolding prefer_longer
prefer_longer-Covers spans s given p =
    let sorted = sort longer_first spans in
    sort-Any (Covers s) earlier (choose sorted []) (
      All-Any (Covered (choose sorted [])) sorted s
        (choose-Covered sorted [] (sort-Descending spans) (Ahead-nil sorted))
        (sort-Any (λ t. t ≡ s) longer_first spans given) p)
