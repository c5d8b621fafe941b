-- ===== src/Worker/Stores/Runs.antt =====
-- Relations between the stores before and after a piece of the worker, and what a call that answers
-- tells of them.
use cold_harbour.Common.{◌≡◌, refl, [], ◌∷◌, List}
use cold_harbour.Worker.Stores.{
  World, Reply, value, failed, Io, continue, settle_call, call, fine, lost, no_reply, Fault,
}

-- A relation that holds along every run once it holds of every effect.
pub record Lawful (R : World → World → Type 0) : Type 0 where
  pub stay : (w : World) → R w w
  pub further : (u v w : World) → R u v → R v w → R u w
  pub blind : (u v : World) (fs : List Fault) → R u v → R u (record v { faults = fs })

module _ (R : World → World → Type 0) (law : Lawful R) {A : Type 0} where
  pub settle_call-Lawful :
      (answer : World → A) (effect : World → World) (fs : List Fault) (w : World)
      → R w (effect w)
      → R w (settle_call answer effect fs w).1
  settle_call-Lawful answer effect [] w r = r
  settle_call-Lawful answer effect (fine ∷ fs) w r = law.blind w (effect w) fs r
  settle_call-Lawful answer effect (lost ∷ fs) w r = law.blind w w fs (law.stay w)
  settle_call-Lawful answer effect (no_reply ∷ fs) w r = law.blind w (effect w) fs r

  pub call-Lawful :
      (answer : World → A) (effect : World → World) (w : World)
      → R w (effect w)
      → R w (call answer effect w).1
  call-Lawful answer effect w r = settle_call-Lawful answer effect w.faults w r

  pub continue-Lawful {κ} :
      {B : Type κ} (x : Reply A × World) (f : A → Io B) (w : World)
      → R w x.1
      → ((a : A) (w' : World) → x ≡ (value a, w') → R w' (f a w').1)
      → R w (continue f x).1
  continue-Lawful (value a, v) f w g h = law.further w v (f a v).1 g (h a v refl)
  continue-Lawful (failed e, v) f w g h = g

module _ {A : Type 0} (answer : World → A) (effect : World → World) where
  -- A call that answers had its effect.
  pub settle_call-value :
      (fs : _) (w w' : World) (a : A)
      → settle_call answer effect fs w ≡ (value a, w')
      → (a ≡ answer w)
        × (w'.keys ≡ (effect w).keys)
        × (w'.receipts ≡ (effect w).receipts)
        × (w'.checkpoints ≡ (effect w).checkpoints)
  settle_call-value [] w w' a e = (cc, cc, cc, cc)
  settle_call-value (fine ∷ fs) w w' a e = (cc, cc, cc, cc)
  settle_call-value (lost ∷ fs) w w' a e = cc
  settle_call-value (no_reply ∷ fs) w w' a e = cc

  pub settle_call-world :
      (fs : List Fault) (w w' : World) (a : A)
      → settle_call answer effect fs w ≡ (value a, w')
      → (a ≡ answer w) × ((fs' : List Fault) × (w' ≡ record (effect w) { faults = fs' }))
  settle_call-world [] w w' a e = let same : w' ≡ effect w = cc in (cc, ((effect w).faults, same))
  settle_call-world (fine ∷ fs) w w' a e = (cc, (fs, cc))
  settle_call-world (lost ∷ fs) w w' a e = cc
  settle_call-world (no_reply ∷ fs) w w' a e = cc

module _ {A B : Type 0} where
  pub continue-value :
      (x : Reply A × World) (f : A → Io B) (b : B) (w : World)
      → continue f x ≡ (value b, w)
      → (a : A) × (v : World) × (x ≡ (value a, v)) × (f a v ≡ (value b, w))
  continue-value (value a, v) f b w e = (a, v, refl, e)
  continue-value (failed e', v) f b w e = cc
