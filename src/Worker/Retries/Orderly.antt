-- ===== src/Worker/Retries/Orderly.antt =====
-- What taking one entry off the stream, and adding one, does to the others.
use cold_harbour.Common.{
  ℕ, ◌≡◌, refl, sym, ◌∙◌, ap, subst, Bool, true, false, not, ◌&&◌, List, [], ◌∷◌, ◌++◌, Text, All,
  Any, inl, inr, ◌⊎◌, Bool-cases, ltb, if-cases, if◌then◌else◌, arith,
}
use cold_harbour.Worker.Stream.{StreamId}
use cold_harbour.Worker.Retries.{
  Fields, Entry, Lanes, same_id, remove, try_again, give_up, settle, attempt, Settled,
}

-- An entry of a list.
abbrev pub In : Entry → List Entry → Type 0
In e es = Any (λ x. x ≡ e) es

-- No two entries of the stream have one identifier.
abbrev pub Distinct : List Entry → Type 0
Distinct es = (x y : Entry) → In x es → In y es → same_id x.id y.id ≡ true → x ≡ y

-- From one stream to another: only the entry `entry` may go, and no identifier is given twice.
pub record Orderly (entry : StreamId) (l l' : Lanes) : Type 0 where
  pub others : (e : Entry) → same_id e.id entry ≡ false → In e l.main → In e l'.main
  pub distinct : Distinct l.main → Distinct l'.main

pub stay-Orderly : (entry : StreamId) (l : Lanes) → Orderly entry l l
stay-Orderly entry l = record { others = λ e h i. i; distinct = λ h. h }

pub further-Orderly :
    (entry : StreamId) (l m n : Lanes) → Orderly entry l m → Orderly entry m n → Orderly entry l n
further-Orderly entry l m n g h = record {
  others = λ e differs i. h.others e differs (g.others e differs i);
  distinct = λ i. h.distinct (g.distinct i);
}

not_both : true ≡ false → ⊥
not_both e = cc

In-remove : (entry : StreamId) (es : List Entry) (e : Entry) → In e (remove entry es) → In e es
unfolding remove
In-remove entry [] e h = h
In-remove entry (x ∷ xs) e h = elim (Bool-cases (same_id x.id entry)) [
  | inl t ↦ inr (In-remove entry xs e (rw t at h))
  | inr t ↦ elim (rw t at h) [ inl same ↦ inl same | inr rest ↦ inr (In-remove entry xs e rest) ]
]

remove-In :
    (entry : StreamId) (es : List Entry) (e : Entry)
    → same_id e.id entry ≡ false
    → In e es
    → In e (remove entry es)
unfolding remove
remove-In entry [] e differs h = h
remove-In entry (x ∷ xs) e differs h = elim (Bool-cases (same_id x.id entry)) [
  | inl t ↦ rw t (elim h [
    | inl same ↦ absurd (not_both (sym t ∙ ap (λ z. same_id z.id entry) same ∙ differs))
    | inr i ↦ remove-In entry xs e differs i
  ])
  | inr t ↦ rw t (elim h [ inl same ↦ inl same | inr i ↦ inr (remove-In entry xs e differs i) ])
]

In-append : (es : List Entry) (n e : Entry) → In e (es ++ n ∷ []) → In e es ⊎ (n ≡ e)
In-append [] n e (inl same) = inr same
In-append [] n e (inr h) = absurd h
In-append (x ∷ xs) n e (inl same) = inl (inl same)
In-append (x ∷ xs) n e (inr h) = elim (In-append xs n e h) [ inl i ↦ inl (inr i) | inr s ↦ inr s ]

pub append-In : (es : List Entry) (n e : Entry) → In e es → In e (es ++ n ∷ [])
append-In (x ∷ xs) n e (inl same) = inl same
append-In (x ∷ xs) n e (inr h) = inr (append-In xs n e h)
append-In [] n e h = absurd h

-- The entries of a list, none of which has this identifier.
abbrev pub Fresh : StreamId → List Entry → Type 0
Fresh id es = All (λ e. same_id id e.id ≡ false) es

Fresh-In :
    (id : StreamId) (es : List Entry) (e : Entry) → Fresh id es → In e es → same_id id e.id ≡ false
Fresh-In id (x ∷ xs) e h (inl same) = subst (λ t. same_id id t.id ≡ false) same h.0
Fresh-In id (x ∷ xs) e h (inr i) = Fresh-In id xs e h.1 i
Fresh-In id [] e h i = absurd i

same_id-sym : (a b : StreamId) → same_id a b ≡ same_id b a
same_id-sym a b = ground arith

pub Distinct-append :
    (es : List Entry) (n : Entry) → Fresh n.id es → Distinct es → Distinct (es ++ n ∷ [])
Distinct-append es n fresh h x y i j same = elim (In-append es n x i) [
  | inl p ↦ elim (In-append es n y j) [
    | inl q ↦ h x y p q same
    | inr q ↦ absurd (
        not_both (
          sym (
            sym (Fresh-In n.id es x fresh p)
            ∙ same_id-sym n.id x.id
            ∙ ap (λ z. same_id x.id z.id) q
            ∙ same)))
  ]
  | inr p ↦ elim (In-append es n y j) [
    | inl q ↦
        absurd
          (not_both (sym (sym (Fresh-In n.id es y fresh q) ∙ ap (λ z. same_id z.id y.id) p ∙ same)))
    | inr q ↦ sym p ∙ q
  ]
]

-- `XDEL` of the entry.
pub remove-Orderly :
    (entry : StreamId) (l l' : Lanes) → l'.main ≡ remove entry l.main → Orderly entry l l'
remove-Orderly entry l l' e = record {
  others = λ x differs i. subst (In x) (sym e) (remove-In entry l.main x differs i);
  distinct = λ h.
      subst Distinct (sym e)
        (λ x y i j same. h x y (In-remove entry l.main x i) (In-remove entry l.main y j) same);
}

-- And `XADD` of another with an identifier of its own.
try_again-Orderly :
    (l : Lanes) (fresh : StreamId) (job : Text) (entry : StreamId) (n : ℕ) (fields : Fields)
    → Fresh fresh l.main
    → Orderly entry l (try_again l fresh job entry n fields)
unfolding try_again
try_again-Orderly l fresh job entry n fields apart =
    let new : Entry = record { id = fresh; fields = fields } in
    let more = Distinct-append l.main new apart in
    record {
      others =
          λ x differs i. remove-In entry (l.main ++ new ∷ []) x differs (append-In l.main new x i);
      distinct = λ h x y i j same.
          more h x y (In-remove entry (l.main ++ new ∷ []) x i)
            (In-remove entry (l.main ++ new ∷ []) y j) same;
    }

pub settle-Orderly :
    (l : Lanes) (fresh : StreamId) (job : Text) (entry : StreamId) (force : Bool) (fields : Fields)
    → Fresh fresh l.main
    → Orderly entry l (settle l fresh job entry force fields).1
unfolding settle give_up
settle-Orderly l fresh job entry force fields apart =
    let n = (if force then 3 else attempt (l.retries job)) in
    if-cases (λ (t : (Settled × ℕ) × Lanes). Orderly entry l t.1) (not force && ltb n 3) _ _
      (λ _. try_again-Orderly l fresh job entry n fields apart)
      (λ _. remove-Orderly entry l (give_up l job entry fields) refl)
