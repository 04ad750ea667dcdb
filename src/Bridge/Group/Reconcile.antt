-- ===== src/Bridge/Group/Reconcile.antt =====
-- crates/play-on-air/src/bridge/group.rs: the requests that bring Cast to the members of a group.
--
-- What the registry knows of the speakers and the wire request are outside; the answer of Cast is an
-- argument: the candidates that it could not add, or none where the request failed.
use play_on_air.Prelude.{
  ℕ, Bool, true, false, not, ◌&&◌, ◌||◌, List, [], ◌∷◌, ◌++◌, if◌then◌else◌, Option, none, some,
}
use play_on_air.Prelude.Text.{Text, same_text}
use play_on_air.Prelude.Maps.{lookup}
use play_on_air.Bridge.State.{PlayingSession, CastGroup, Bridge, state_at, playing_at}
use play_on_air.Bridge.Group.{
  has, keep_if, follows_in, is_just, none_left, GroupEffect, redispatch_start, with_group,
}

abbrev pub keep_in : List Text → List Text → List Text
keep_in ids xs = keep_if (λ x. has x ids) xs

abbrev pub drop_in : List Text → List Text → List Text
drop_in ids xs = keep_if (λ x. not (has x ids)) xs

-- Push each id that is not there yet.
abbrev pub push_missing : List Text → List Text → List Text
push_missing desired [] = desired
push_missing desired (x ∷ xs) =
    push_missing (if has x desired then desired else desired ++ x ∷ []) xs

unfoldable pub desired_members : List Text → Text → List Text → List Text
desired_members cast_members owner followers =
    push_missing (keep_in (owner ∷ followers) cast_members) (owner ∷ followers)

abbrev pub same_texts : List Text → List Text → Bool
same_texts [] [] = true
same_texts [] (y ∷ ys) = false
same_texts (x ∷ xs) [] = false
same_texts (x ∷ xs) (y ∷ ys) = same_text x y && same_texts xs ys

pub record GroupPlan : Type 0 where
  pub owner : Text
  pub desired : List Text
  pub added : List Text

abbrev pub live_followers : Text → List Text → Bridge → List Text
live_followers uuid [] b = []
live_followers uuid (id ∷ ids) b =
    if follows_in uuid (state_at id b)
    then id ∷ live_followers uuid ids b
    else live_followers uuid ids b

-- What Cast is asked for, if its members are confirmed and others are wanted.
unfoldable pub plan_members : CastGroup → Text → List Text → Option GroupPlan
unfolding desired_members
plan_members group owner followers =
    let desired = desired_members group.cast_members owner followers in
    if none_left group.cast_members || same_texts desired group.cast_members
    then none
    else some
        (record { owner = owner; desired = desired; added = drop_in group.cast_members desired })

unfoldable pub plan_playing :
    Text → CastGroup → Text → Option (ℕ × PlayingSession) → Bridge → Option GroupPlan
unfolding plan_members
plan_playing uuid group owner none b = none
plan_playing uuid group owner (some (g, session)) b =
    if is_just session.group uuid
    then plan_members group owner (live_followers uuid group.followers b)
    else none

abbrev pub plan_owned : Text → CastGroup → Option Text → Bridge → Option GroupPlan
plan_owned uuid group none b = none
plan_owned uuid group (some owner) b = plan_playing uuid group owner (playing_at owner b) b

abbrev pub plan_in : Text → Option CastGroup → Bridge → Option GroupPlan
plan_in uuid none b = none
plan_in uuid (some group) b = plan_owned uuid group group.owner b

unfoldable pub group_plan : Text → Bridge → Option GroupPlan
group_plan uuid b = plan_in uuid (lookup uuid b.groups) b

abbrev pub redispatch_all : List Text → Bridge → List GroupEffect
redispatch_all [] b = []
redispatch_all (id ∷ ids) b = redispatch_start id b ++ redispatch_all ids b

-- The members that could not be added play standalone.
unfoldable pub exclude : List Text → CastGroup → CastGroup
exclude failed group = record group {
  followers = drop_in failed group.followers;
  excluded = push_missing group.excluded failed;
}

unfoldable pub excluded_in : Text → List Text → Option CastGroup → Bridge → Bridge
unfolding exclude
excluded_in uuid failed none b = b
excluded_in uuid failed (some group) b = with_group uuid (exclude failed group) b

unfoldable pub exclude_failed : Text → List Text → Bridge → Bridge × List GroupEffect
unfolding excluded_in
exclude_failed uuid failed b =
    (excluded_in uuid failed (lookup uuid b.groups) b, redispatch_all failed b)

abbrev pub confirmed_in : Text → GroupPlan → List Text → Option CastGroup → Bridge → Bridge
confirmed_in uuid plan failed none b = b
confirmed_in uuid plan failed (some group) b =
    with_group uuid (record group { cast_members = drop_in failed plan.desired }) b

-- The answer to a plan: of its candidates those that failed, or all where the request did.
unfoldable pub plan_answered :
    Text → GroupPlan → Option (List Text) → Bridge → Bridge × List GroupEffect
unfolding exclude_failed
plan_answered uuid plan none b = exclude_failed uuid (drop_in (plan.owner ∷ []) plan.added) b
plan_answered uuid plan (some failed_devices) b =
    let failed = keep_in failed_devices (drop_in (plan.owner ∷ []) plan.added) in
    exclude_failed uuid failed (confirmed_in uuid plan failed (lookup uuid b.groups) b)

abbrev pub mark_dirty : Bool → CastGroup → CastGroup
mark_dirty dirty group = record group { reconcile_dirty = dirty }

abbrev pub dirty_in : Text → Bool → Option CastGroup → Bridge → Bool × Bridge
dirty_in uuid dirty none b = (false, b)
dirty_in uuid dirty (some group) b = (true, with_group uuid (mark_dirty dirty group) b)

unfoldable pub set_reconcile_dirty : Text → Bool → Bridge → Bool × Bridge
set_reconcile_dirty uuid dirty b = dirty_in uuid dirty (lookup uuid b.groups) b

abbrev pub finish_in : Text → Option CastGroup → Bridge → Bool × Bridge
finish_in uuid none b = (true, b)
finish_in uuid (some group) b =
    if group.reconcile_dirty
    then (false, b)
    else (true, with_group uuid (record group { reconcile_running = false }) b)

-- Whether the task ends.
unfoldable pub finish_reconcile_pass : Text → Bridge → Bool × Bridge
finish_reconcile_pass uuid b = finish_in uuid (lookup uuid b.groups) b
