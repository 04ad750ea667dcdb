-- ===== src/Bridge/Tests/Groups.antt =====
-- The groups of crates/play-on-air/src/bridge/group.rs at concrete inputs.
use play_on_air.Prelude.{◌≡◌, refl, true, false, ◌||◌, List, [], ◌∷◌, ◌++◌, map, none, some}
use play_on_air.Prelude.Text.{Text, codes, same_text}
use play_on_air.Bridge.State.{PlayingSession, playing, following, CastGroup, Bridge}
use play_on_air.Bridge.Start.{accept_start, install_playing}
use play_on_air.Bridge.Group.{has, enter_group}
use play_on_air.Bridge.Group.Owner.{confirm_group_session, group_owner_left}
use play_on_air.Bridge.Group.Reconcile.{plan_answered, keep_in, desired_members}
use play_on_air.Bridge.Group.Members.{distinct, desired_members_lem}
use play_on_air.Bridge.Group.Kept.{IsGroup}
use play_on_air.Bridge.Group.Roles.{run-IsGroup}
use play_on_air.Bridge.Group.Events.{enters, confirms, answers, owner_leaves, group_step}
use play_on_air.Bridge.Life.{LifeEvent, installs, grouped, life_run}
use play_on_air.Bridge.Tests.{session}

desired_members_lem_example :
    (has (codes "c") (desired_members (codes "b" ∷ codes "a" ∷ []) (codes "a") (codes "c" ∷ []))
      ≡ (same_text (codes "c") (codes "a") || has (codes "c") (codes "c" ∷ [])))
    × (distinct (desired_members (codes "b" ∷ codes "a" ∷ []) (codes "a") (codes "c" ∷ [])) ≡ true)
    × ((tail : List Text) × (desired_members
            (codes "b" ∷ codes "a" ∷ [])
            (codes "a")
            (codes "c" ∷ [])
          ≡ keep_in (codes "a" ∷ codes "c" ∷ []) (codes "b" ∷ codes "a" ∷ []) ++ tail))
unfolding same_text
desired_members_lem_example =
    desired_members_lem (codes "b" ∷ codes "a" ∷ []) (codes "a") (codes "c" ∷ []) refl (codes "c")

abbrev owner_session : PlayingSession
owner_session = record session { group = some (codes "u"); sample_rate = 44100; channels = 2 }

-- The first member leads, two more follow, and Cast cannot add one of them.
abbrev multi_select : List LifeEvent
multi_select =
    map (grouped (λ r. 2)) (
      enters (codes "a") (codes "u") 44100 0
      ∷ enters (codes "b") (codes "u") 44100 1
      ∷ enters (codes "c") (codes "u") 44100 2
      ∷ [])
    ++ installs (codes "a") 1 owner_session
      ∷ map (grouped (λ r. 2)) (
          confirms (codes "a")
          ∷ answers (codes "u")
              (record {
                owner = codes "a";
                desired = codes "a" ∷ codes "b" ∷ codes "c" ∷ [];
                added = codes "b" ∷ codes "c" ∷ [];
              })
              (some (codes "c" ∷ []))
          ∷ [])

-- Then the owner leaves, and its session goes on at the follower.
abbrev handed : List LifeEvent
handed = multi_select ++ grouped (λ r. 2) (owner_leaves (codes "a") 1) ∷ []

abbrev led_on : CastGroup
led_on = record {
  owner = some (codes "b");
  followers = [];
  cast_members = codes "a" ∷ codes "b" ∷ [];
  host_key = none;
  excluded = codes "c" ∷ [];
  promoting = none;
  reconcile_running = true;
  reconcile_dirty = true;
}

abbrev formed : CastGroup
formed = record {
  owner = some (codes "a");
  followers = codes "b" ∷ [];
  cast_members = codes "a" ∷ codes "b" ∷ [];
  host_key = none;
  excluded = codes "c" ∷ [];
  promoting = none;
  reconcile_running = true;
  reconcile_dirty = false;
}

run-IsGroup_example : IsGroup led_on
unfolding same_text life_run enter_group plan_answered confirm_group_session accept_start
    install_playing group_owner_left group_step
run-IsGroup_example = run-IsGroup handed (codes "u") led_on refl

abbrev grouped_session : PlayingSession
grouped_session = record session { group = some (codes "u") }

abbrev grouped_bridge : Bridge
grouped_bridge = record {
  devices =
      (codes "a", record { generation = 4; state = playing 4 grouped_session })
      ∷ (
        codes "b",
        record {
          generation = 2;
          state = following 2 (record { group = codes "u"; sample_rate = 44100; source = 7 });
        },
      )
      ∷ [];
  flac_fallback = [];
  groups = (codes "u", formed) ∷ [];
}
