-- ===== src/Bridge/Group/Members.antt =====
-- Lists of members, and the list that Cast is asked for (crates/play-on-air/src/bridge/group.rs).
use play_on_air.Prelude.{
  ◌≡◌, refl, sym, ◌∙◌, inl, inr, Bool, true, false, not, ◌&&◌, ◌||◌, List, [], ◌∷◌, ◌++◌,
  append_assoc, append-nil, if◌then◌else◌, Bool-cases, arith,
}
use play_on_air.Prelude.Text.{Text, same_text}
use play_on_air.Prelude.Maps.{same_text-cases, same_text_refl, same_text_sym}
use play_on_air.Bridge.Group.{has, keep_if}
use play_on_air.Bridge.Group.Reconcile.{keep_in, push_missing, desired_members}

-- No id stands twice.
abbrev pub distinct : List Text → Bool
distinct [] = true
distinct (x ∷ xs) = not (has x xs) && distinct xs

pub has-append : (id : Text) (xs ys : List Text) → has id (xs ++ ys) ≡ (has id xs || has id ys)
has-append id [] ys = refl
has-append id (x ∷ xs) ys = rw (has-append id xs ys) (ground arith)

pub has-keep_if :
    (id : Text) (p : Text → Bool) (xs : List Text) → has id (keep_if p xs) ≡ (has id xs && p id)
has-keep_if id p [] = refl
has-keep_if id p (x ∷ xs) = elim (same_text-cases id x) [
  | inl (q, e) ↦ elim (Bool-cases (p x)) [
    | inl t ↦ rw (q, t, same_text_refl x) refl
    | inr t ↦ rw (q, t, has-keep_if x p xs, t, same_text_refl x) (ground arith)
  ]
  | inr (q, e) ↦ elim (Bool-cases (p x)) [
    | inl t ↦ rw (t, e) (has-keep_if id p xs)
    | inr t ↦ rw (t, e) (has-keep_if id p xs)
  ]
]

pub distinct-keep_if :
    (p : Text → Bool) (xs : List Text) → distinct xs ≡ true → distinct (keep_if p xs) ≡ true
distinct-keep_if p [] e = refl
distinct-keep_if p (x ∷ xs) e =
    let d = distinct-keep_if p xs (ground (arith, e)) in
    elim (Bool-cases (p x)) [
      | inl t ↦ rw (t, has-keep_if x p xs, d) (ground (arith, e))
      | inr t ↦ rw t d
    ]

pub distinct-snoc :
    (xs : List Text) (y : Text)
    → distinct xs ≡ true
    → has y xs ≡ false
    → distinct (xs ++ y ∷ []) ≡ true
distinct-snoc [] y e f = refl
distinct-snoc (x ∷ xs) y e f =
    let d = distinct-snoc xs y (ground (arith, e)) (ground (arith, f)) in
    let n : same_text x y ≡ false = same_text_sym x y ∙ ground (arith, f) in
    rw (has-append x xs (y ∷ []), n, d) (ground (arith, e))

-- Pushing an id that is there changes nothing for membership.
pub has-pushed :
    (id y : Text) (xs : List Text)
    → has id (if has y xs then xs else xs ++ y ∷ []) ≡ (has id xs || same_text id y)
has-pushed id y xs = elim (Bool-cases (has y xs)) [
  | inr f ↦ rw (f, has-append id xs (y ∷ [])) (ground arith)
  | inl f ↦ elim (same_text-cases id y) [
    | inl (q, e) ↦ rw (f, q, f) (ground arith)
    | inr (q, e) ↦ rw (f, e) (ground arith)
  ]
]

pub distinct-pushed :
    (y : Text) (xs : List Text)
    → distinct xs ≡ true
    → distinct (if has y xs then xs else xs ++ y ∷ []) ≡ true
distinct-pushed y xs e = elim (Bool-cases (has y xs)) [
  | inl f ↦ rw f e
  | inr f ↦ rw f (distinct-snoc xs y e f)
]

pub has-push_missing :
    (id : Text) (xs ys : List Text) → has id (push_missing xs ys) ≡ (has id xs || has id ys)
has-push_missing id xs [] = ground arith
has-push_missing id xs (y ∷ ys) =
    has-push_missing id (if has y xs then xs else xs ++ y ∷ []) ys
    ∙ rw (has-pushed id y xs) (ground arith)

distinct-push_missing :
    (xs ys : List Text) → distinct xs ≡ true → distinct (push_missing xs ys) ≡ true
distinct-push_missing xs [] e = e
distinct-push_missing xs (y ∷ ys) e =
    distinct-push_missing (if has y xs then xs else xs ++ y ∷ []) ys (distinct-pushed y xs e)

-- What is pushed goes to the end.
push_missing-prefix : (xs ys : List Text) → (tail : List Text) × (push_missing xs ys ≡ xs ++ tail)
push_missing-prefix xs [] = ([], sym (append-nil xs))
push_missing-prefix xs (y ∷ ys) = elim (Bool-cases (has y xs)) [
  | inl f ↦ rw f (push_missing-prefix xs ys)
  | inr f ↦
      let (tail, e) = push_missing-prefix (xs ++ y ∷ []) ys in
      rw f (y ∷ tail, e ∙ append_assoc xs (y ∷ []) tail)
]

-- The list that Cast is asked for holds the owner and the followers and nobody else, nobody twice if
-- the confirmed list has nobody twice, and it starts with the confirmed members that stay, in their
-- order.
pub desired_members_lem :
    (cast_members : List Text) (owner : Text) (followers : List Text)
    → distinct cast_members ≡ true
    → (id : Text)
    → (has id (desired_members cast_members owner followers)
        ≡ (same_text id owner || has id followers))
      × (distinct (desired_members cast_members owner followers) ≡ true)
      × ((tail : List Text) × (desired_members cast_members owner followers
            ≡ keep_in (owner ∷ followers) cast_members ++ tail))
unfolding desired_members
desired_members_lem cast_members owner followers d id =
    let wanted = owner ∷ followers in
    let kept = keep_in wanted cast_members in
    (
      has-push_missing id kept wanted
          ∙ rw (has-keep_if id (λ x. has x wanted) cast_members) (ground arith),
      distinct-push_missing kept wanted (distinct-keep_if (λ x. has x wanted) cast_members d),
      push_missing-prefix kept wanted,
    )
