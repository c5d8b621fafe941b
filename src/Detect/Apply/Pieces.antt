-- ===== src/Detect/Apply/Pieces.antt =====
-- A text cut at the spans of a scan: the parts between them, which are kept, and the parts that they
-- hide. This describes what masking does without the loops that do it.
use cold_harbour.Common.{
  ℕ, suc, ◌+◌, ◌-◌, ◌≤◌, ◌≡◌, refl, sym, ap, ◌∙◌, List, [], ◌∷◌, ◌++◌, Text, arith, length, drop,
  take-append-drop, ite, zero, length-take, append-nil, length-append, length-drop,
}
use cold_harbour.Detect.Span.{Kind, Kind-discrete, Span}
use cold_harbour.Detect.Select.Disjoint.{LaidOut}
use cold_harbour.Detect.Scan.{slice}

pub data Piece : Type 0 where
  kept : Text → Piece
  hidden : Kind → Text → Piece

unfoldable pub pieces : Text → ℕ → List Span → List Piece
pieces s prev [] = kept (drop prev s) ∷ []
pieces s prev (sp ∷ rest) =
    kept (slice s prev sp.start) ∷ hidden sp.kind (slice s sp.start sp.stop) ∷ pieces s sp.stop rest

-- The text with `hide` in place of what the spans cover.
unfoldable pub render : (Kind → Text → Text) → List Piece → Text
render hide [] = []
render hide (kept t ∷ ps) = t ++ render hide ps
render hide (hidden k t ∷ ps) = hide k t ++ render hide ps

-- How many pieces of a kind are hidden.
unfoldable pub hidden_count : Kind → List Piece → ℕ
hidden_count k [] = 0
hidden_count k (kept t ∷ ps) = hidden_count k ps
hidden_count k (hidden j t ∷ ps) =
    let rest = hidden_count k ps in ite (Kind-discrete k j) (suc rest) rest

abbrev pub InText : Text → Span → Type 0
InText s sp = sp.stop ≤ length s

drop-nil : (n : ℕ) → drop {A = ℕ} n [] ≡ []
drop-nil zero = refl
drop-nil (suc n) = refl

drop-drop : (m n : ℕ) (s : Text) → drop m (drop n s) ≡ drop (n + m) s
drop-drop m zero s = ap (λ t. drop t s) (omega arith)
drop-drop m (suc n) [] = drop-nil m ∙ sym (drop-nil (suc n + m))
drop-drop m (suc n) (c ∷ s) =
    drop-drop m n s ∙ ap (λ t. drop t (c ∷ s)) {x = suc (n + m)} (omega arith)

-- A slice and what follows it.
pub slice-append-drop : (s : Text) (a b : ℕ) → a ≤ b → slice s a b ++ drop b s ≡ drop a s
slice-append-drop s a b h =
    ap (λ t. slice s a b ++ t) (ap (λ t. drop t s) (omega arith) ∙ sym (drop-drop (b - a) a s))
    ∙ take-append-drop (b - a) (drop a s)

pub length-slice : (s : Text) (a b : ℕ) → b ≤ length s → length (slice s a b) ≡ b - a
length-slice s a b h = omega (arith, length-take (b - a) (drop a s), length-drop a s)

-- With nothing replaced, the pieces make up the text again.
pub render-pieces :
    (s : Text) (prev : ℕ) (spans : List Span)
    → LaidOut prev spans
    → render (λ k t. t) (pieces s prev spans) ≡ drop prev s
unfolding render pieces
render-pieces s prev [] l = append-nil (drop prev s)
render-pieces s prev (sp ∷ rest) l =
    ap (λ t. slice s prev sp.start ++ (slice s sp.start sp.stop ++ t))
      (render-pieces s sp.stop rest l.2)
    ∙ ap (λ t. slice s prev sp.start ++ t) (slice-append-drop s sp.start sp.stop (omega arith))
    ∙ slice-append-drop s prev sp.start l.0

-- A replacement as long as what it replaces keeps the length.
pub length-render :
    (hide : Kind → Text → Text) (ps : List Piece)
    → ((k : Kind) (t : Text) → length (hide k t) ≡ length t)
    → length (render hide ps) ≡ length (render (λ k t. t) ps)
unfolding render
length-render hide [] h = refl
length-render hide (kept t ∷ ps) h = omega (
  arith,
  length-append t (render hide ps),
  length-append t (render (λ k t. t) ps),
  length-render hide ps h,
)
length-render hide (hidden k t ∷ ps) h = omega (
  arith,
  length-append (hide k t) (render hide ps),
  length-append t (render (λ k t. t) ps),
  length-render hide ps h,
  h k t,
)
