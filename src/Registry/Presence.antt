-- ===== src/Registry/Presence.antt =====
-- What the registry (registry.rs) promises of one device, whatever happens to the others: it is
-- absent, present, or present until a deadline.
use play_on_air.Prelude.{
  ℕ, ◌+◌, ◌-◌, ◌≡◌, refl, ◌∙◌, ap, Bool, true, false, List, [], ◌∷◌, leb, ltb, if◌then◌else◌,
  Bool-cases, Option-cases, inl, inr, Option, none, some, arith,
}
use play_on_air.Prelude.Text.{Text, same_text}
use play_on_air.Prelude.Maps.{
  lookup, Unique, unless, when, lookup-insert, lookup-remove, lookup-modify, Unique-insert,
  Unique-remove, Unique-modify,
}
use play_on_air.Prelude.Maps.Sweep.{holds, lookup-sweep, Unique-sweep}
use play_on_air.Registry.{
  Device, DeviceRegistry, appear, leave, mark_pending_leave, cancel_pending_leave, take_due_leaves,
  prune_older_than, leave_is_due, is_stale, seen_now, marked, cancelled,
}

pub data Presence : Type 0 where
  absent : Presence
  present : ℕ → Presence
  leaving : ℕ → ℕ → Presence

abbrev pub presence_until : ℕ → Option ℕ → Presence
presence_until seen none = present seen
presence_until seen (some deadline) = leaving seen deadline

abbrev pub presence_of : Option Device → Presence
presence_of none = absent
presence_of (some d) = presence_until d.last_seen d.pending_leave_deadline

pub data Event : Type 0 where
  appears : ℕ → Device → Event
  leaves : Text → Event
  marks : Text → ℕ → ℕ → Event
  cancels : Text → Event
  takes : ℕ → Event
  prunes : ℕ → ℕ → Event

unfoldable pub step : Event → DeviceRegistry → DeviceRegistry
unfolding appear leave mark_pending_leave cancel_pending_leave take_due_leaves prune_older_than
step (appears now d) r = (appear now d r).1
step (leaves j) r = (leave j r).1
step (marks j now grace) r = (mark_pending_leave j now grace r).1
step (cancels j) r = (cancel_pending_leave j r).1
step (takes now) r = (take_due_leaves now r).1
step (prunes now max_age) r = (prune_older_than now max_age r).1

unfoldable pub run : List Event → DeviceRegistry → DeviceRegistry
run [] r = r
run (e ∷ es) r = run es (step e r)

abbrev pub mark_presence : ℕ → Presence → Presence
mark_presence deadline absent = absent
mark_presence deadline (present seen) = leaving seen deadline
mark_presence deadline (leaving seen old) = leaving seen old

abbrev pub cancel_presence : Presence → Presence
cancel_presence absent = absent
cancel_presence (present seen) = present seen
cancel_presence (leaving seen deadline) = present seen

abbrev pub take_presence : ℕ → Presence → Presence
take_presence now absent = absent
take_presence now (present seen) = present seen
take_presence now (leaving seen deadline) =
    if leb deadline now then absent else leaving seen deadline

abbrev pub prune_presence : ℕ → ℕ → Presence → Presence
prune_presence now max_age absent = absent
prune_presence now max_age (present seen) =
    if ltb max_age (now - seen) then absent else present seen
prune_presence now max_age (leaving seen deadline) = leaving seen deadline

-- The promise for the device `id`.
abbrev pub presence_step : Text → Event → Presence → Presence
presence_step id (appears now d) p = if same_text id d.id then present now else p
presence_step id (leaves j) p = if same_text id j then absent else p
presence_step id (marks j now grace) p = if same_text id j then mark_presence (now + grace) p else p
presence_step id (cancels j) p = if same_text id j then cancel_presence p else p
presence_step id (takes now) p = take_presence now p
presence_step id (prunes now max_age) p = prune_presence now max_age p

abbrev pub presence_run : Text → List Event → Presence → Presence
presence_run id [] p = p
presence_run id (e ∷ es) p = presence_run id es (presence_step id e p)

pub step-Unique : (e : Event) (r : DeviceRegistry) → Unique r.inner → Unique (step e r).inner
unfolding step
step-Unique (appears now d) r u = Unique-insert d.id (seen_now now d) r.inner u
step-Unique (leaves j) r u = Unique-remove j r.inner u
step-Unique (marks j now grace) r u = Unique-modify j (marked now grace) r.inner u
step-Unique (cancels j) r u = Unique-modify j cancelled r.inner u
step-Unique (takes now) r u = Unique-sweep (leave_is_due now) r.inner u
step-Unique (prunes now max_age) r u = Unique-sweep (is_stale now max_age) r.inner u

pub run-Unique : (es : List Event) (r : DeviceRegistry) → Unique r.inner → Unique (run es r).inner
unfolding run
run-Unique [] r u = u
run-Unique (e ∷ es) r u = run-Unique es (step e r) (step-Unique e r u)

marked-presence :
    (b : Bool) (now grace : ℕ) (o : Option Device)
    → presence_of (when b (marked now grace) o)
      ≡ (if b then mark_presence (now + grace) (presence_of o) else presence_of o)
marked-presence b now grace none = ground arith
marked-presence false now grace (some d) = refl
marked-presence true now grace (some d) = elim (Option-cases d.pending_leave_deadline) [
  | inl e ↦ rw e refl
  | inr (t, e) ↦ rw e refl
]

cancelled-presence :
    (b : Bool) (o : Option Device)
    → presence_of (when b cancelled o)
      ≡ (if b then cancel_presence (presence_of o) else presence_of o)
cancelled-presence b none = ground arith
cancelled-presence false (some d) = refl
cancelled-presence true (some d) = elim (Option-cases d.pending_leave_deadline) [
  | inl e ↦ rw e refl
  | inr (t, e) ↦ rw e refl
]

taken-presence :
    (now : ℕ) (o : Option Device)
    → presence_of (unless (holds (leave_is_due now) o) o) ≡ take_presence now (presence_of o)
taken-presence now none = refl
taken-presence now (some d) = elim (Option-cases d.pending_leave_deadline) [
  | inl e ↦ rw e refl
  | inr (t, e) ↦ elim (Bool-cases (leb t now)) [ inl h ↦ rw (e, h) refl | inr h ↦ rw (e, h) refl ]
]

pruned-presence :
    (now max_age : ℕ) (o : Option Device)
    → presence_of (unless (holds (is_stale now max_age) o) o)
      ≡ prune_presence now max_age (presence_of o)
pruned-presence now max_age none = refl
pruned-presence now max_age (some d) = elim (Option-cases d.pending_leave_deadline) [
  | inl e ↦ elim (Bool-cases (ltb max_age (now - d.last_seen))) [
    | inl h ↦ rw (e, h) refl
    | inr h ↦ rw (e, h) refl
  ]
  | inr (t, e) ↦ rw e refl
]

pub step_lem :
    (id : Text) (e : Event) (r : DeviceRegistry)
    → Unique r.inner
    → presence_of (lookup id (step e r).inner)
      ≡ presence_step id e (presence_of (lookup id r.inner))
unfolding step
step_lem id (appears now d) r u = rw (lookup-insert id d.id (seen_now now d) r.inner) (ground arith)
step_lem id (leaves j) r u = rw (lookup-remove id j r.inner) (ground arith)
step_lem id (marks j now grace) r u =
    rw (lookup-modify id j (marked now grace) r.inner)
      (marked-presence (same_text id j) now grace (lookup id r.inner))
step_lem id (cancels j) r u =
    rw (lookup-modify id j cancelled r.inner)
      (cancelled-presence (same_text id j) (lookup id r.inner))
step_lem id (takes now) r u =
    rw (lookup-sweep (leave_is_due now) id r.inner u) (taken-presence now (lookup id r.inner))
step_lem id (prunes now max_age) r u =
    rw (lookup-sweep (is_stale now max_age) id r.inner u)
      (pruned-presence now max_age (lookup id r.inner))

-- For each device, the registry does what is promised of it, whatever is done to the others and in
-- whatever order, provided that it began with one entry for each key.
pub run-presence :
    (id : Text) (es : List Event) (r : DeviceRegistry)
    → Unique r.inner
    → presence_of (lookup id (run es r).inner)
      ≡ presence_run id es (presence_of (lookup id r.inner))
unfolding run
run-presence id [] r u = refl
run-presence id (e ∷ es) r u =
    run-presence id es (step e r) (step-Unique e r u) ∙ ap (presence_run id es) (step_lem id e r u)
