-- ===== src/Registry/Leaves.antt =====
-- How devices come and go in the registry (registry.rs): appearing, the debounced leave, the leave
-- by instance, and the decision to withdraw a receiver.
use play_on_air.Prelude.{
  ℕ, ◌+◌, ◌≡◌, ◌≤◌, ◌<◌, ◌↔◌, refl, sym, ◌∙◌, ap, append-nil, Bool, true, false, not, List, [], ◌∷◌,
  ◌++◌, leb, if◌then◌else◌, some, is_some, Option, none, arith,
}
use play_on_air.Prelude.Text.{Text, same_text}
use play_on_air.Prelude.Maps.{lookup, Unique, unless, lookup-insert, same_text_refl}
use play_on_air.Prelude.Maps.Sweep.{holds, due_values, lookup-sweep, removed-sweep}
use play_on_air.Registry.{
  Device, DeviceRegistry, appear, get, take_due_leaves, leave_is_due, seen_now, found_pending,
  decide_airplay_withdraw, keep, withdraw,
}
use play_on_air.Registry.Presence.{
  absent, present, leaving, presence_of, Event, appears, leaves, marks, cancels, takes, prunes, run,
  step, presence_step, presence_run, run-presence, step_lem, run-Unique,
}

queued :
    (b : Bool) (xs ys : List Text) → (if b then xs ++ ys else xs) ≡ xs ++ (if b then ys else [])
queued true xs ys = refl
queued false xs ys = sym (append-nil xs)

-- Whether a device was about to leave.
abbrev pub was_leaving : Option Device → Bool
was_leaving none = false
was_leaving (some d) = is_some d.pending_leave_deadline

-- An appearance reports whether the id is new, stores the device as it came, seen now and with
-- neither a deadline nor a start of a leave, and leaves every other id alone; an id that was about
-- to leave is queued as a cancellation.
pub appear_lem :
    (id : Text) (now : ℕ) (device : Device) (r : DeviceRegistry)
    → let (is_new, r') = appear now device r in
      (is_new ≡ not (is_some (get device.id r)))
      × (get id r' ≡ (
          if same_text id device.id
          then some (record device {
            last_seen = now;
            pending_leave_deadline = none;
            pending_leave_since = none;
          })
          else get id r))
      × (r'.pending_leave_cancellations
          ≡ r.pending_leave_cancellations
            ++ (if was_leaving (get device.id r) then device.id ∷ [] else []))
unfolding appear get
appear_lem id now device r = (
  refl,
  lookup-insert id device.id (seen_now now device) r.inner,
  ap
        (λ p.
          if p
          then r.pending_leave_cancellations ++ device.id ∷ []
          else r.pending_leave_cancellations)
        (same_pending (lookup device.id r.inner))
      ∙ queued (was_leaving (lookup device.id r.inner)) r.pending_leave_cancellations
          (device.id ∷ []),
)
  where
    same_pending : (o : Option Device) → found_pending o ≡ was_leaving o
    same_pending none = refl
    same_pending (some d) = refl

-- A device whose deadline, if it has one, is not after `now`.
abbrev pub deadline_passed : ℕ → Option ℕ → Bool
deadline_passed now none = false
deadline_passed now (some deadline) = leb deadline now

abbrev pub expired : ℕ → List (Text × Device) → List Device
expired now [] = []
expired now ((k, d) ∷ m) =
    if deadline_passed now d.pending_leave_deadline then d ∷ expired now m else expired now m

abbrev pub unexpired : ℕ → Option Device → Option Device
unexpired now none = none
unexpired now (some d) = if deadline_passed now d.pending_leave_deadline then none else some d

expired_lem : (now : ℕ) (m : List (Text × Device)) → due_values (leave_is_due now) m ≡ expired now m
expired_lem now [] = refl
expired_lem now ((k, d) ∷ m) = rw (expired_lem now m, due_lem d.pending_leave_deadline) refl
  where
    due_lem :
        (o : Option ℕ)
        → leave_is_due now (record d { pending_leave_deadline = o }) ≡ deadline_passed now o
    due_lem none = refl
    due_lem (some t) = refl

-- From a map with one entry for each key, the due leaves are exactly the devices that have a
-- deadline which is not after `now`, and every other device stays as it is.
pub take_due_leaves_lem :
    (id : Text) (now : ℕ) (r : DeviceRegistry)
    → Unique r.inner
    → let (removed, r') = take_due_leaves now r in
      (removed ≡ expired now r.inner) × (get id r' ≡ unexpired now (get id r))
unfolding take_due_leaves get
take_due_leaves_lem id now r u = (
  removed-sweep (leave_is_due now) r.inner u ∙ expired_lem now r.inner,
  lookup-sweep (leave_is_due now) id r.inner u ∙ kept (lookup id r.inner),
)
  where
    still :
        (d : Device) (o : Option ℕ)
        → d.pending_leave_deadline ≡ o
        → unless (leave_is_due now d) (some d) ≡ (if deadline_passed now o then none else some d)
    still d none e = rw e refl
    still d (some t) e = rw e refl

    kept : (o : Option Device) → unless (holds (leave_is_due now) o) o ≡ unexpired now o
    kept none = refl
    kept (some d) = still d d.pending_leave_deadline refl

-- The events that let a leave of `id` at `deadline` stand.
abbrev pub Spares : Text → ℕ → Event → Type 0
Spares id deadline (appears now d) = same_text id d.id ≡ false
Spares id deadline (leaves j) = same_text id j ≡ false
Spares id deadline (cancels j) = same_text id j ≡ false
Spares id deadline (takes now) = now < deadline
Spares id deadline (marks j now grace) = Unit {0}
Spares id deadline (prunes now max_age) = Unit {0}

abbrev pub AllSpare : Text → ℕ → List Event → Type 0
AllSpare id deadline [] = Unit {0}
AllSpare id deadline (e ∷ es) = Spares id deadline e × AllSpare id deadline es

spared :
    (id : Text) (seen deadline : ℕ) (e : Event)
    → Spares id deadline e
    → presence_step id e (leaving seen deadline) ≡ leaving seen deadline
spared id seen deadline (appears now d) h = rw h refl
spared id seen deadline (leaves j) h = rw h refl
spared id seen deadline (cancels j) h = rw h refl
spared id seen deadline (takes now) h = ground arith
spared id seen deadline (marks j now grace) h = ground arith
spared id seen deadline (prunes now max_age) h = refl

all_spared :
    (id : Text) (seen deadline : ℕ) (es : List Event)
    → AllSpare id deadline es
    → presence_run id es (leaving seen deadline) ≡ leaving seen deadline
all_spared id seen deadline [] h = refl
all_spared id seen deadline (e ∷ es) h =
    ap (presence_run id es) (spared id seen deadline e h.0) ∙ all_spared id seen deadline es h.1

-- From a map with one entry for each key: a present device that is marked at `t` leaves when a take
-- comes at `t + grace` or later, and stays at an earlier one, whatever happened since the mark,
-- further marks included, unless it appeared, left, was cancelled or was taken in between.
pub mark-take_due_leaves :
    (id : Text) (t grace seen now : ℕ) (es : List Event) (r : DeviceRegistry)
    → Unique r.inner
    → presence_of (get id r) ≡ present seen
    → AllSpare id (t + grace) es
    → presence_of (get id (take_due_leaves now (run (marks id t grace ∷ es) r)).1)
      ≡ (if leb (t + grace) now then absent else leaving seen (t + grace))
unfolding run step get
mark-take_due_leaves id t grace seen now es r u p spare =
    let marked_first = marks id t grace ∷ es in
    step_lem id (takes now) (run marked_first r) (run-Unique marked_first r u)
    ∙ ap (presence_step id (takes now)) (
        run-presence id marked_first r u
        ∙ ap (presence_run id es) (rw (same_text_refl id, p) refl)
        ∙ all_spared id seen (t + grace) es spare)

-- A receiver is withdrawn only when it is not wanted, plays nothing and has been gone long enough;
-- it is kept only when it is wanted.
pub decide_airplay_withdraw_lem :
    (is_desired has_session : Bool) (gone_for min_gone : ℕ)
    → ((decide_airplay_withdraw is_desired has_session gone_for min_gone ≡ withdraw)
        ↔ ((is_desired ≡ false) × (has_session ≡ false) × (min_gone ≤ gone_for)))
      × ((decide_airplay_withdraw is_desired has_session gone_for min_gone ≡ keep)
          ↔ (is_desired ≡ true))
unfolding decide_airplay_withdraw
decide_airplay_withdraw_lem is_desired has_session gone_for min_gone = ground arith
