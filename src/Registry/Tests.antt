-- ===== src/Registry/Tests.antt =====
-- The device registry (crates/play-on-air/src/registry.rs) at concrete inputs.
use play_on_air.Prelude.{
  ℕ, ◌+◌, ◌≡◌, ◌≤◌, ◌↔◌, refl, true, false, not, List, [], ◌∷◌, ◌++◌, leb, if◌then◌else◌, Option,
  none, some, is_some, arith,
}
use play_on_air.Prelude.Text.{Text, codes, same_text}
use play_on_air.Prelude.Maps.{lookup}
use play_on_air.Registry.{
  Device, DeviceRegistry, appear, get, take_due_leaves, decide_airplay_withdraw, keep, withdraw,
}
use play_on_air.Registry.Presence.{
  Event, absent, leaving, presence_of, appears, marks, takes, prunes, run, presence_run,
  run-presence,
}
use play_on_air.Registry.Leaves.{
  expired, unexpired, was_leaving, appear_lem, take_due_leaves_lem, mark-take_due_leaves,
  decide_airplay_withdraw_lem,
}

abbrev speaker : Text → ℕ → Option ℕ → Device
speaker id seen deadline = record {
  id = id;
  name = codes "Kitchen";
  model = [];
  host = codes "10.0.0.7";
  hostname = [];
  port = 8009;
  last_seen = seen;
  instance_name = id;
  pending_leave_deadline = deadline;
  pending_leave_since = none;
}

-- One speaker that is about to leave and one that is not.
abbrev two : DeviceRegistry
two = record {
  inner =
      (codes "a", speaker (codes "a") 3 (some 20)) ∷ (codes "b", speaker (codes "b") 4 none) ∷ [];
  pending_leave_cancellations = [];
}

abbrev events : List Event
events =
    marks (codes "b") 6 2 ∷ takes 9 ∷ prunes 100 50 ∷ appears 101 (speaker (codes "c") 0 none) ∷ []

run-presence_example :
    presence_of (lookup (codes "b") (run (marks (codes "b") 5 10 ∷ events) two).inner)
    ≡ presence_run
        (codes "b")
        (marks (codes "b") 5 10 ∷ events)
        (presence_of (lookup (codes "b") two.inner))
unfolding same_text
run-presence_example =
    run-presence (codes "b") (marks (codes "b") 5 10 ∷ events) two (refl, (refl, tt))

appear_lem_example :
    let back = speaker (codes "a") 0 none in
    let (is_new, r') = appear 15 back two in
    (is_new ≡ not (is_some (get back.id two)))
    × (get (codes "b") r' ≡ (
        if same_text (codes "b") back.id
        then some (record back {
          last_seen = 15;
          pending_leave_deadline = none;
          pending_leave_since = none;
        })
        else get (codes "b") two))
    × (r'.pending_leave_cancellations
        ≡ [] ++ (if was_leaving (get back.id two) then back.id ∷ [] else []))
appear_lem_example = appear_lem (codes "b") 15 (speaker (codes "a") 0 none) two

take_due_leaves_lem_example :
    let (removed, r') = take_due_leaves 20 two in
    (removed ≡ expired 20 two.inner) × (get (codes "a") r' ≡ unexpired 20 (get (codes "a") two))
unfolding same_text
take_due_leaves_lem_example = take_due_leaves_lem (codes "a") 20 two (refl, (refl, tt))

mark-take_due_leaves_example :
    presence_of (get (codes "b") (take_due_leaves 15 (run (marks (codes "b") 5 10 ∷ events) two)).1)
    ≡ (if leb (5 + 10) 15 then absent else leaving 4 (5 + 10))
unfolding get same_text
mark-take_due_leaves_example =
    mark-take_due_leaves (codes "b") 5 10 4 15 events two (refl, (refl, tt)) refl
      (tt, (omega arith, (tt, (refl, tt))))

decide_airplay_withdraw_lem_example :
    ((decide_airplay_withdraw false false 60 60 ≡ withdraw)
      ↔ ((false ≡ false) × (false ≡ false) × (◌≤◌ 60 60)))
    × ((decide_airplay_withdraw false false 60 60 ≡ keep) ↔ (false ≡ true))
decide_airplay_withdraw_lem_example = decide_airplay_withdraw_lem false false 60 60
