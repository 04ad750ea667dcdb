-- ===== src/Prelude/Maps/Sweep.antt =====
-- Taking entries out of a map in two passes: the keys of the entries first, then entry by entry.
use play_on_air.Prelude.Tests.{if◌then◌else◌, Bool-cases}
use play_on_air.Prelude.Text.{Text, same_text}
use play_on_air.Prelude.Maps.{
  lookup, remove, Unique, unless, lookup-remove, Unique-remove, same_text-cases, same_text_refl,
  same_text_sym,
}
use mathlib.Core.Path.{◌≡◌, refl, ap, ◌∙◌}
use mathlib.Core.Logic.{inl, inr}
use mathlib.Core.Bool.{Bool, false, ◌||◌}
use mathlib.Core.Option.{Option, none, some}
use mathlib.Core.List.{List, [], ◌∷◌}
use native.Mathlib.Omega.{arith}

abbrev pub has : Text → List Text → Bool
has k [] = false
has k (j ∷ js) = same_text k j || has k js

module _ {ℓ} {A : Type ℓ} (p : A → Bool) where
  -- `iter().filter_map(...)`.
  abbrev pub due_keys : List (Text × A) → List Text
  due_keys [] = []
  due_keys ((k, a) ∷ m) = if p a then k ∷ due_keys m else due_keys m

  abbrev pub due_values : List (Text × A) → List A
  due_values [] = []
  due_values ((k, a) ∷ m) = if p a then a ∷ due_values m else due_values m

  abbrev pub holds : Option A → Bool
  holds none = false
  holds (some a) = p a

module _ {ℓ} {A : Type ℓ} where
  abbrev pub with_found : Option A → List A × List (Text × A) → List A × List (Text × A)
  with_found none r = r
  with_found (some a) (removed, m) = (a ∷ removed, m)

  -- `for id in due { if let Some(dev) = guard.remove(&id) { removed.push(dev); } }`.
  abbrev pub remove_all : List Text → List (Text × A) → List A × List (Text × A)
  remove_all [] m = ([], m)
  remove_all (k ∷ ks) m = with_found (lookup k m) (remove_all ks (remove k m))

  with_found-map : (o : Option A) (r : List A × List (Text × A)) → (with_found o r).1 ≡ r.1
  with_found-map none r = refl
  with_found-map (some a) r = refl

  lookup-remove_all :
      (k : Text) (ks : List Text) (m : List (Text × A))
      → lookup k (remove_all ks m).1 ≡ unless (has k ks) (lookup k m)
  lookup-remove_all k [] m = refl
  lookup-remove_all k (j ∷ js) m =
      rw
        (
          with_found-map (lookup j m) (remove_all js (remove j m)),
          lookup-remove_all k js (remove j m),
          lookup-remove k j m,
        )
        (ground arith)

  Unique-remove_all : (ks : List Text) (m : List (Text × A)) → Unique m → Unique (remove_all ks m).1
  Unique-remove_all [] m u = u
  Unique-remove_all (k ∷ ks) m u =
      rw (with_found-map (lookup k m) (remove_all ks (remove k m)))
        (Unique-remove_all ks (remove k m) (Unique-remove k m u))

  -- A key that is not in the map is not due.
  has-due_keys :
      (p : A → Bool) (k : Text) (m : List (Text × A))
      → Unique m
      → has k (due_keys p m) ≡ holds p (lookup k m)
  has-due_keys p k [] u = refl
  has-due_keys p k ((j, a) ∷ m) u = elim (same_text-cases k j) [
    | inl (q, e) ↦
        let n : has k (due_keys p m) ≡ false = has-due_keys p k m u.1 ∙ rw (q, u.0) refl in
        elim (Bool-cases (p a)) [ inl f ↦ rw (f, e, f) refl | inr f ↦ rw (f, e, f) n ]
    | inr (q, e) ↦ elim (Bool-cases (p a)) [
      | inl f ↦ rw (f, e) (has-due_keys p k m u.1)
      | inr f ↦ rw (f, e) (has-due_keys p k m u.1)
    ]
  ]

  -- The sweep takes out the entries that are due and leaves all others.
  pub lookup-sweep :
      (p : A → Bool) (k : Text) (m : List (Text × A))
      → Unique m
      → lookup k (remove_all (due_keys p m) m).1 ≡ unless (holds p (lookup k m)) (lookup k m)
  lookup-sweep p k m u = rw (lookup-remove_all k (due_keys p m) m, has-due_keys p k m u) refl

  pub Unique-sweep :
      (p : A → Bool) (m : List (Text × A)) → Unique m → Unique (remove_all (due_keys p m) m).1
  Unique-sweep p m u = Unique-remove_all (due_keys p m) m u

  -- An entry under a key that no due key meets stays out of what is removed.
  removed-cons :
      (k : Text) (a : A) (ks : List Text) (m : List (Text × A))
      → has k ks ≡ false
      → (remove_all ks ((k, a) ∷ m)).0 ≡ (remove_all ks m).0
  removed-cons k a [] m h = refl
  removed-cons k a (j ∷ js) m h =
      let e : same_text j k ≡ false = same_text_sym j k ∙ ground arith in
      let g : has k js ≡ false = ground arith in
      rw (e) (removed-found (lookup j m) _ _ (removed-cons k a js (remove j m) g))
    where
      removed-found :
          (o : Option A) (r s : List A × List (Text × A))
          → r.0 ≡ s.0
          → (with_found o r).0 ≡ (with_found o s).0
      removed-found none r s q = q
      removed-found (some b) r s q = ap (◌∷◌ b) q

  remove_absent : (k : Text) (m : List (Text × A)) → lookup k m ≡ none → remove k m ≡ m
  remove_absent k [] h = refl
  remove_absent k ((j, a) ∷ m) h = elim (Bool-cases (same_text k j)) [
    | inl e ↦ absurd (ground (arith, e, h))
    | inr e ↦ rw e (ap (◌∷◌ (j, a)) (remove_absent k m (rw e at h)))
  ]

  pub removed-sweep :
      (p : A → Bool) (m : List (Text × A))
      → Unique m
      → (remove_all (due_keys p m) m).0 ≡ due_values p m
  removed-sweep p [] u = refl
  removed-sweep p ((k, a) ∷ m) u =
      let n : has k (due_keys p m) ≡ false = has-due_keys p k m u.1 ∙ rw u.0 refl in
      elim (Bool-cases (p a)) [
        | inl f ↦
            rw (f, same_text_refl k, remove_absent k m u.0) (ap (◌∷◌ a) (removed-sweep p m u.1))
        | inr f ↦ rw f (removed-cons k a (due_keys p m) m n ∙ removed-sweep p m u.1)
      ]
