-- ===== src/Detect/Select/Disjoint.antt =====
-- What `preferLonger` returns lies in order, and no two spans of it overlap.
use cold_harbour.Common.{
  ℕ, ◌≤◌, ◌<◌, ◌≡◌, ◌⊎◌, false, List, [], ◌∷◌, ◌++◌, arith, All, All-snoc, sort, insert_by,
  sort-All,
}
use cold_harbour.Detect.Span.{Span}
use cold_harbour.Detect.Select.{earlier, hits, consider, choose, prefer_longer, longer_first}

-- From offset `n` on the spans are not empty, in order and apart.
abbrev pub LaidOut : ℕ → List Span → Type 0
LaidOut n [] = Unit {0}
LaidOut n (s ∷ ss) = (n ≤ s.start) × (s.start < s.stop) × LaidOut s.stop ss

abbrev Apart : Span → Span → Type 0
Apart s c = (c.stop ≤ s.start) ⊎ (s.stop ≤ c.start)

abbrev Spread : List Span → Type 0
Spread [] = Unit {0}
Spread (s ∷ ss) = (s.start < s.stop) × All (Apart s) ss × Spread ss

hits-Apart : (sp : Span) (cs : List Span) → hits sp cs ≡ false → All (λ c. Apart c sp) cs
unfolding hits
hits-Apart sp [] h = tt
hits-Apart sp (c ∷ cs) h = ground (arith, hits-Apart sp cs)

Spread-snoc :
    (cs : List Span) (sp : Span)
    → Spread cs
    → All (λ c. Apart c sp) cs
    → sp.start < sp.stop
    → Spread (cs ++ sp ∷ [])
Spread-snoc [] sp s a p = (p, tt, tt)
Spread-snoc (c ∷ cs) sp s a p = (s.0, All-snoc (Apart c) cs sp s.1 a.0, Spread-snoc cs sp s.2 a.1 p)

consider-Spread : (sp : Span) (cs : List Span) → Spread cs → Spread (consider sp cs)
unfolding consider
consider-Spread sp cs s = ground (arith, hits-Apart sp cs, Spread-snoc cs sp s)

choose-Spread : (spans cs : List Span) → Spread cs → Spread (choose spans cs)
unfolding choose
choose-Spread [] cs s = s
choose-Spread (sp ∷ rest) cs s = choose-Spread rest (consider sp cs) (consider-Spread sp cs s)

insert-LaidOut :
    (n : ℕ) (s : Span) (ss : List Span)
    → n ≤ s.start
    → s.start < s.stop
    → All (Apart s) ss
    → LaidOut n ss
    → LaidOut n (insert_by earlier s ss)
unfolding insert_by
insert-LaidOut n s [] lo p a l = (lo, p, tt)
insert-LaidOut n s (c ∷ cs) lo p a l = ground (arith, insert-LaidOut c.stop s cs)

sort-LaidOut : (cs : List Span) → Spread cs → LaidOut 0 (sort earlier cs)
unfolding sort
sort-LaidOut [] s = tt
sort-LaidOut (c ∷ cs) s =
    insert-LaidOut 0 c (sort earlier cs) (omega arith) s.0 (sort-All (Apart c) earlier cs s.1)
      (sort-LaidOut cs s.2)

-- For all spans given, those kept are not empty, ordered by their start, and none overlaps another.
pub prefer_longer-LaidOut : (spans : List Span) → LaidOut 0 (prefer_longer spans)
unfolding prefer_longer
prefer_longer-LaidOut spans =
    sort-LaidOut (choose (sort longer_first spans) [])
      (choose-Spread (sort longer_first spans) [] tt)

module _ (P : Span → Type 0) where
  pub consider-All : (sp : Span) (cs : List Span) → P sp → All P cs → All P (consider sp cs)
  unfolding consider
  consider-All sp cs p a = ground (arith, All-snoc P cs sp a p)

  choose-All : (spans cs : List Span) → All P spans → All P cs → All P (choose spans cs)
  unfolding choose
  choose-All [] cs s a = a
  choose-All (sp ∷ rest) cs s a = choose-All rest (consider sp cs) s.1 (consider-All sp cs s.0 a)

  -- Nothing is made up: what holds of every span given holds of every span kept.
  pub prefer_longer-All : (spans : List Span) → All P spans → All P (prefer_longer spans)
  unfolding prefer_longer
  prefer_longer-All spans s =
      sort-All P earlier (choose (sort longer_first spans) [])
        (choose-All (sort longer_first spans) [] (sort-All P longer_first spans s) tt)
