-- ===== src/Worker/Stores/Grows.antt =====
-- How the stores may change in a run of the worker, and what a call that answers tells of them.
use cold_harbour.Worker.Stores.Runs.{Lawful, settle_call-Lawful, continue-Lawful, settle_call-value}
use cold_harbour.Common.{
  ℕ, ◌≡◌, refl, Option, ◌⊎◌, arith, inl, inr, some, ap, ◌∙◌, Bool, true, sym, none, update-same,
  update-cases,
}
use cold_harbour.Worker.Stores.{
  KeyRow, Receipt, World, Reply, value, Io, continue, settle_call, destroy_row, destroyed,
  get_receipt, inserted, insert_receipt, keep_or, is_none,
}

-- How the stores may change: a receipt stays as it is; and a key is destroyed only under a receipt,
-- which bears the time.
pub record Grows (w w' : World) : Type 0 where
  pub kept : (id : ℕ) (r : Receipt) → w.receipts id ≡ some r → w'.receipts id ≡ some r
  pub receipted :
      (id : ℕ) (k : KeyRow)
      → w'.keys id ≡ some k
      → k.destroyed ≡ true
      → (w.keys id ≡ some k)
        ⊎ ((r : Receipt) × (w'.receipts id ≡ some r) × (k.destroyed_at ≡ r.purged_at))

pub stay-Grows : (w : World) → Grows w w
stay-Grows w = record { kept = λ id r e. e; receipted = λ id k e d. inl e }

pub further-Grows : (u v w : World) → Grows u v → Grows v w → Grows u w
further-Grows u v w g h = record {
  kept = λ id r e. h.kept id r (g.kept id r e);
  receipted = λ id k e d. elim (h.receipted id k e d) [
    | inr found ↦ inr found
    | inl before ↦ elim (g.receipted id k before d) [
      | inl first ↦ inl first
      | inr (r, there, at) ↦ inr (r, h.kept id r there, at)
    ]
  ];
}

-- Only the key rows and the receipts matter.
pub alike-Grows :
    (u v w : World) → Grows u v → v.keys ≡ w.keys → v.receipts ≡ w.receipts → Grows u w
alike-Grows u v w g e f = record {
  kept = λ id r there. ap (λ t. t id) (sym f) ∙ g.kept id r there;
  receipted = λ id k there d. elim (g.receipted id k (ap (λ t. t id) e ∙ there) d) [
    | inl first ↦ inl first
    | inr (r, found, at) ↦ inr (r, ap (λ t. t id) (sym f) ∙ found, at)
  ];
}

Grows-Lawful : Lawful Grows
Grows-Lawful = record {
  stay = stay-Grows;
  further = further-Grows;
  blind = λ u v fs g. alike-Grows u v _ g refl refl;
}

module _ {A : Type 0} where
  module _ (answer : World → A) (effect : World → World) where
    pub settle_call-Grows :
        (fs : _) (w : World) → Grows w (effect w) → Grows w (settle_call answer effect fs w).1
    settle_call-Grows fs w g = settle_call-Lawful Grows Grows-Lawful answer effect fs w g

  module _ {B : Type 0} where
    pub continue-Grows :
        (x : Reply A × World) (f : A → Io B) (w : World)
        → Grows w x.1
        → ((a : A) (w' : World) → x ≡ (value a, w') → Grows w' (f a w').1)
        → Grows w (continue f x).1
    continue-Grows x f w g h = continue-Lawful Grows Grows-Lawful x f w g h

destroy_row-cases :
    (at : ℕ) (row : Option KeyRow) (k : KeyRow)
    → destroy_row at row ≡ some k
    → (row ≡ some k) ⊎ (k.destroyed_at ≡ at)
destroy_row-cases at none k e = cc
destroy_row-cases at (some row) k e = ground arith

pub destroyed-Grows :
    (id at : ℕ) (r : Receipt) (w : World)
    → w.receipts id ≡ some r
    → at ≡ r.purged_at
    → Grows w (destroyed id at w)
destroyed-Grows id at r w there same = record {
  kept = λ i q e. e;
  receipted = λ i k e d. elim (update-cases w.keys id (destroy_row at (w.keys id)) i) [
    | inl other ↦ inl (sym other ∙ e)
    | inr (here, row) ↦ elim (destroy_row-cases at (w.keys id) k (sym row ∙ e)) [
      | inl before ↦ inl (ap w.keys here ∙ before)
      | inr time ↦ inr (r, ap w.receipts here ∙ there, time ∙ same)
    ]
  ];
}

inserted-Grows : (r : Receipt) (w : World) → Grows w (inserted r w)
inserted-Grows r w = record {
  kept = λ i q e.
      elim (update-cases w.receipts r.job_id (some (keep_or (w.receipts r.job_id) r)) i) [
        | inl other ↦ other ∙ e
        | inr (here, row) ↦ row ∙ ap (λ o. some (keep_or o r)) (ap w.receipts (sym here) ∙ e)
      ];
  receipted = λ i k e d. inl e;
}

-- What is known after each call that answers.
module _ (w w' : World) where
  pub get_receipt-value :
      (id : ℕ) (o : Option Receipt) → get_receipt id w ≡ (value o, w') → (o ≡ w'.receipts id)
  unfolding get_receipt
  get_receipt-value id o e =
      let (answer, _, same, _) =
        settle_call-value (λ w. w.receipts id) (λ w. w) w.faults w w' o e in
      answer ∙ ap (λ t. t id) (sym same)

  pub insert_receipt-value :
      (r : Receipt) (is_new : Bool)
      → insert_receipt r w ≡ (value is_new, w')
      → (is_new ≡ is_none (w.receipts r.job_id))
        × (w'.receipts r.job_id ≡ some (keep_or (w.receipts r.job_id) r))
  unfolding insert_receipt
  insert_receipt-value r is_new e =
      let (answer, _, same, _) =
        settle_call-value (λ w. is_none (w.receipts r.job_id)) (inserted r) w.faults w w' is_new
          e in
      (answer, ap (λ t. t r.job_id) same ∙ update-same w.receipts r.job_id _)

pub get_receipt-Grows : (id : ℕ) (w : World) → Grows w (get_receipt id w).1
unfolding get_receipt
get_receipt-Grows id w = settle_call-Grows (λ w. w.receipts id) (λ w. w) w.faults w (stay-Grows w)

pub insert_receipt-Grows : (r : Receipt) (w : World) → Grows w (insert_receipt r w).1
unfolding insert_receipt
insert_receipt-Grows r w =
    settle_call-Grows (λ w. is_none (w.receipts r.job_id)) (inserted r) w.faults w
      (inserted-Grows r w)
