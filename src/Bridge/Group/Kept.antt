-- ===== src/Bridge/Group/Kept.antt =====
-- The roles in a group (crates/play-on-air/src/bridge/group.rs), and the writes that keep them.
use play_on_air.Prelude.{
  ◌≡◌, refl, ◌∙◌, subst, inl, inr, Bool, true, false, not, ◌&&◌, List, [], ◌∷◌, ◌++◌, Option, none,
  some, Bool-cases, Option-cases, arith,
}
use play_on_air.Prelude.Text.{Text, same_text}
use play_on_air.Prelude.Maps.{lookup, insert, remove, modify, same_text_refl}
use play_on_air.Bridge.State.{CastGroup}
use play_on_air.Bridge.Group.{has, keep_if, others, push_new, no_group, group_or_default, is_just}
use play_on_air.Bridge.Group.Owner.{gone_from}
use play_on_air.Bridge.Group.Reconcile.{push_missing, drop_in, exclude}
use play_on_air.Bridge.Group.Members.{
  distinct, has-keep_if, distinct-keep_if, distinct-pushed, has-pushed, has-push_missing,
}

-- No id of the first list is in the second.
abbrev pub apart : List Text → List Text → Bool
apart [] ys = true
apart (x ∷ xs) ys = not (has x ys) && apart xs ys

abbrev pub leads : Option Text → List Text → Bool
leads none followers = true
leads (some owner) followers = not (has owner followers)

-- Nobody follows twice, the owner does not follow, and no follower is excluded.
pub record IsGroup (group : CastGroup) : Type 0 where
  pub distinct_followers : distinct group.followers ≡ true
  pub owner_leads : leads group.owner group.followers ≡ true
  pub included : apart group.followers group.excluded ≡ true

abbrev pub AllGroups : List (Text × CastGroup) → Type 0
AllGroups [] = Unit
AllGroups ((uuid, group) ∷ groups) = IsGroup group × AllGroups groups

pub AllGroups-lookup :
    (uuid : Text) (groups : List (Text × CastGroup)) (group : CastGroup)
    → AllGroups groups
    → lookup uuid groups ≡ some group
    → IsGroup group
AllGroups-lookup uuid [] group v e = absurd (ground (arith, e))
AllGroups-lookup uuid ((k, x) ∷ groups) group (v, vs) e = elim (Bool-cases (same_text uuid k)) [
  | inl p ↦ let q : x ≡ group = cc (rw p at e) in subst (λ y. IsGroup y) q v
  | inr p ↦ AllGroups-lookup uuid groups group vs (rw p at e)
]

pub AllGroups-remove :
    (uuid : Text) (groups : List (Text × CastGroup))
    → AllGroups groups
    → AllGroups (remove uuid groups)
AllGroups-remove uuid [] v = tt
AllGroups-remove uuid ((k, x) ∷ groups) (v, vs) = elim (Bool-cases (same_text uuid k)) [
  | inl p ↦ rw p (AllGroups-remove uuid groups vs)
  | inr p ↦ rw p (v, AllGroups-remove uuid groups vs)
]

pub AllGroups-insert :
    (uuid : Text) (group : CastGroup) (groups : List (Text × CastGroup))
    → IsGroup group
    → AllGroups groups
    → AllGroups (insert uuid group groups)
AllGroups-insert uuid group groups v vs = (v, AllGroups-remove uuid groups vs)

pub AllGroups-modify :
    (uuid : Text) (f : CastGroup → CastGroup) (groups : List (Text × CastGroup))
    → ((group : CastGroup) → IsGroup group → IsGroup (f group))
    → AllGroups groups
    → AllGroups (modify uuid f groups)
AllGroups-modify uuid f [] h v = tt
AllGroups-modify uuid f ((k, x) ∷ groups) h (v, vs) = elim (Bool-cases (same_text uuid k)) [
  | inl p ↦ rw p (h x v, AllGroups-modify uuid f groups h vs)
  | inr p ↦ rw p (v, AllGroups-modify uuid f groups h vs)
]

pub no_group-IsGroup : IsGroup no_group
no_group-IsGroup = record { distinct_followers = refl; owner_leads = refl; included = refl }

pub group_or_default-IsGroup :
    (uuid : Text) (groups : List (Text × CastGroup))
    → AllGroups groups
    → IsGroup (group_or_default (lookup uuid groups))
group_or_default-IsGroup uuid groups v = elim (Option-cases (lookup uuid groups)) [
  | inl e ↦ rw e no_group-IsGroup
  | inr (group, e) ↦ rw e (AllGroups-lookup uuid groups group v e)
]

has_not-keep_if :
    (id : Text) (p : Text → Bool) (xs : List Text)
    → has id xs ≡ false
    → has id (keep_if p xs) ≡ false
has_not-keep_if id p xs e = has-keep_if id p xs ∙ rw e refl

leads-keep_if :
    (owner : Option Text) (p : Text → Bool) (xs : List Text)
    → leads owner xs ≡ true
    → leads owner (keep_if p xs) ≡ true
leads-keep_if none p xs e = refl
leads-keep_if (some o) p xs e = rw (has_not-keep_if o p xs (ground (arith, e))) refl

apart-keep_if :
    (p : Text → Bool) (xs ys : List Text) → apart xs ys ≡ true → apart (keep_if p xs) ys ≡ true
apart-keep_if p [] ys e = refl
apart-keep_if p (x ∷ xs) ys e =
    let d = apart-keep_if p xs ys (ground (arith, e)) in
    elim (Bool-cases (p x)) [ inl t ↦ rw (t, d) (ground (arith, e)) | inr t ↦ rw t d ]

apart-shrunk :
    (p : Text → Bool) (xs ys : List Text) → apart xs ys ≡ true → apart xs (keep_if p ys) ≡ true
apart-shrunk p [] ys e = refl
apart-shrunk p (x ∷ xs) ys e =
    let d = apart-shrunk p xs ys (ground (arith, e)) in
    rw (has_not-keep_if x p ys (ground (arith, e)), d) refl

apart-push_new :
    (id : Text) (xs ys : List Text)
    → has id ys ≡ false
    → apart xs ys ≡ true
    → apart (push_new id xs) ys ≡ true
apart-push_new id xs ys f e = elim (Bool-cases (has id xs)) [
  | inl t ↦ rw t e
  | inr t ↦ rw t (snoc xs e)
]
  where
    snoc : (xs : List Text) → apart xs ys ≡ true → apart (xs ++ id ∷ []) ys ≡ true
    snoc [] e = rw f refl
    snoc (x ∷ xs) e = rw (snoc xs (ground (arith, e))) (ground (arith, e))

-- Followers that are dropped may be excluded.
apart-excluded :
    (failed xs ys : List Text)
    → apart xs ys ≡ true
    → apart (drop_in failed xs) (push_missing ys failed) ≡ true
apart-excluded failed [] ys e = refl
apart-excluded failed (x ∷ xs) ys e =
    let d = apart-excluded failed xs ys (ground (arith, e)) in
    elim (Bool-cases (has x failed)) [
      | inl t ↦ rw t d
      | inr t ↦ rw (t, has-push_missing x ys failed, t, d) (ground (arith, e))
    ]

others_out : (id : Text) (xs : List Text) → has id (others id xs) ≡ false
others_out id xs =
    has-keep_if id (λ x. not (same_text x id)) xs ∙ rw (same_text_refl id) (ground arith)

-- Some followers leave.
pub kept-IsGroup :
    (p : Text → Bool) (group : CastGroup)
    → IsGroup group
    → IsGroup (record group { followers = keep_if p group.followers })
kept-IsGroup p group v = record {
  distinct_followers = distinct-keep_if p group.followers v.distinct_followers;
  owner_leads = leads-keep_if group.owner p group.followers v.owner_leads;
  included = apart-keep_if p group.followers group.excluded v.included;
}

-- A member that is not excluded follows another one.
pub joined-IsGroup :
    (id : Text) (group : CastGroup)
    → has id group.excluded ≡ false
    → is_just group.owner id ≡ false
    → IsGroup group
    → IsGroup (record group { followers = push_new id group.followers })
joined-IsGroup id group f o v = record {
  distinct_followers = distinct-pushed id group.followers v.distinct_followers;
  owner_leads = leading group.owner o v.owner_leads;
  included = apart-push_new id group.followers group.excluded f v.included;
}
  where
    leading :
        (owner : Option Text)
        → is_just owner id ≡ false
        → leads owner group.followers ≡ true
        → leads owner (push_new id group.followers) ≡ true
    leading none o e = refl
    leading (some x) o e = rw (has-pushed x id group.followers, o) (ground (arith, e))

-- A member takes the lead.
pub led-IsGroup :
    (id : Text) (group : CastGroup)
    → IsGroup group
    → IsGroup (record group { owner = some id; followers = others id group.followers })
led-IsGroup id group v = record {
  distinct_followers =
      distinct-keep_if (λ x. not (same_text x id)) group.followers v.distinct_followers;
  owner_leads = rw (others_out id group.followers) refl;
  included = apart-keep_if (λ x. not (same_text x id)) group.followers group.excluded v.included;
}

pub exclude-IsGroup :
    (failed : List Text) (group : CastGroup) → IsGroup group → IsGroup (exclude failed group)
unfolding exclude
exclude-IsGroup failed group v = record {
  distinct_followers =
      distinct-keep_if (λ x. not (has x failed)) group.followers v.distinct_followers;
  owner_leads = leads-keep_if group.owner (λ x. not (has x failed)) group.followers v.owner_leads;
  included = apart-excluded failed group.followers group.excluded v.included;
}

pub gone_from-IsGroup :
    (id : Text) (group : CastGroup) → IsGroup group → IsGroup (gone_from id group)
unfolding gone_from
gone_from-IsGroup id group v =
    let d = apart-shrunk (λ x. not (same_text x id)) group.followers group.excluded v.included in
    elim (Bool-cases (is_just group.owner id)) [
      | inl p ↦
          rw p
            (record { distinct_followers = v.distinct_followers; owner_leads = refl; included = d })
      | inr p ↦ rw p (record {
        distinct_followers = v.distinct_followers;
        owner_leads = v.owner_leads;
        included = d;
      })
    ]
