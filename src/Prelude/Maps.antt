-- ===== src/Prelude/Maps.antt =====
-- A `HashMap` with text keys as a list of entries. Its order stands for the iteration order, which
-- the source leaves open.
pub mod Sweep
use play_on_air.Prelude.Tests.{if◌then◌else◌, Bool-cases}
use play_on_air.Prelude.Text.{Text, same_text, same_text_iff}
use mathlib.Core.Path.{◌≡◌, refl, sym, ap, ◌∙◌}
use mathlib.Core.Logic.{◌≢◌, ◌⊎◌, inl, inr}
use mathlib.Core.Bool.{Bool, true, false, ◌||◌}
use mathlib.Core.Option.{Option, none, some}
use mathlib.Core.List.{List, [], ◌∷◌}
use native.Mathlib.Omega.{arith}

pub same_text-cases :
    (s t : Text) → ((s ≡ t) × (same_text s t ≡ true)) ⊎ ((s ≢ t) × (same_text s t ≡ false))
same_text-cases s t = elim (Bool-cases (same_text s t)) [
  | inl e ↦ inl ((same_text_iff s t).0 e, e)
  | inr e ↦ inr ((λ q. ground (arith, e, (same_text_iff s t).1 q)), e)
]

pub same_text_refl : (s : Text) → same_text s s ≡ true
same_text_refl s = (same_text_iff s s).1 refl

different_text : {s t : Text} → s ≢ t → same_text s t ≡ false
different_text {s} {t} h = elim (same_text-cases s t) [ inl (p, e) ↦ absurd (h p) | inr (p, e) ↦ e ]

pub same_text_sym : (s t : Text) → same_text s t ≡ same_text t s
same_text_sym s t = elim (same_text-cases s t) [
  | inl (p, e) ↦ rw p refl
  | inr (p, e) ↦ e ∙ sym (different_text (λ q. p (sym q)))
]

module _ {ℓ} {A : Type ℓ} where
  abbrev pub lookup : Text → List (Text × A) → Option A
  lookup k [] = none
  lookup k ((j, a) ∷ m) = if same_text k j then some a else lookup k m

  abbrev pub remove : Text → List (Text × A) → List (Text × A)
  remove k [] = []
  remove k ((j, a) ∷ m) = if same_text k j then remove k m else (j, a) ∷ remove k m

  abbrev pub insert : Text → A → List (Text × A) → List (Text × A)
  insert k a m = (k, a) ∷ remove k m

  -- `get_mut` and an update of what it finds.
  abbrev pub modify : Text → (A → A) → List (Text × A) → List (Text × A)
  modify k f [] = []
  modify k f ((j, a) ∷ m) = (j, if same_text k j then f a else a) ∷ modify k f m

  -- Every key has one entry.
  abbrev pub Unique : List (Text × A) → Type ℓ
  Unique [] = Unit
  Unique ((k, a) ∷ m) = (lookup k m ≡ none) × Unique m

  abbrev pub unless : Bool → Option A → Option A
  unless b o = if b then none else o

  pub lookup-remove :
      (k j : Text) (m : List (Text × A))
      → lookup k (remove j m) ≡ unless (same_text k j) (lookup k m)
  lookup-remove k j [] = ground arith
  lookup-remove k j ((i, a) ∷ m) = elim (same_text-cases j i) [
    | inl (p, e) ↦ elim (same_text-cases k i) [
      | inl (q, f) ↦
          let g : same_text k j ≡ true = rw (q, p) (same_text_refl i) in
          rw (e, lookup-remove k j m, g) refl
      | inr (q, f) ↦ rw (e, f) (lookup-remove k j m)
    ]
    | inr (p, e) ↦ elim (same_text-cases k i) [
      | inl (q, f) ↦
          let g : same_text k j ≡ false = different_text (λ h. p (sym h ∙ q)) in rw (e, f, g) refl
      | inr (q, f) ↦ rw (e, f) (lookup-remove k j m)
    ]
  ]

  pub lookup-insert :
      (k j : Text) (a : A) (m : List (Text × A))
      → lookup k (insert j a m) ≡ (if same_text k j then some a else lookup k m)
  lookup-insert k j a m = rw (lookup-remove k j m) (ground arith)

  abbrev pub when : Bool → (A → A) → Option A → Option A
  when b f none = none
  when b f (some a) = some (if b then f a else a)

  pub lookup-modify :
      (k j : Text) (f : A → A) (m : List (Text × A))
      → lookup k (modify j f m) ≡ when (same_text k j) f (lookup k m)
  lookup-modify k j f [] = refl
  lookup-modify k j f ((i, a) ∷ m) = elim (same_text-cases k i) [
    | inl (q, g) ↦ rw (q, same_text_refl i, ← same_text_sym i j) refl
    | inr (q, g) ↦ rw g (lookup-modify k j f m)
  ]

  pub Unique-remove : (j : Text) (m : List (Text × A)) → Unique m → Unique (remove j m)
  Unique-remove j [] u = tt
  Unique-remove j ((i, a) ∷ m) u = elim (Bool-cases (same_text j i)) [
    | inl e ↦ rw e (Unique-remove j m u.1)
    | inr e ↦ rw e ((lookup-remove i j m ∙ rw u.0 (ground arith)), Unique-remove j m u.1)
  ]

  pub Unique-insert : (k : Text) (a : A) (m : List (Text × A)) → Unique m → Unique (insert k a m)
  Unique-insert k a m u = (lookup-remove k k m ∙ rw (same_text_refl k) refl, Unique-remove k m u)

  pub Unique-modify :
      (j : Text) (f : A → A) (m : List (Text × A)) → Unique m → Unique (modify j f m)
  Unique-modify j f [] u = tt
  Unique-modify j f ((i, a) ∷ m) u = (lookup-modify i j f m ∙ rw u.0 refl, Unique-modify j f m u.1)
