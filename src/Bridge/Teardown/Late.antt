-- ===== src/Bridge/Teardown/Late.antt =====
-- A LOAD that ends while its session is torn down (crates/play-on-air/src/bridge/teardown.rs, load.rs).
use play_on_air.Prelude.{
  ℕ, zero, suc, ◌≤◌, ◌≡◌, refl, ◌∙◌, ◌⊎◌, inl, inr, Bool, true, false, not, ◌&&◌, ◌||◌, List, [],
  ◌∷◌, ◌++◌, Option, none, some, arith,
}
use play_on_air.Prelude.Text.{Text}
use play_on_air.Error.{Error}
use play_on_air.Cast.{
  MediaSessionRef, MediaLoadRequest, CastCommand, load_media, set_level, pause_media, play_media,
  stop_media, ended,
}
use play_on_air.Bridge.State.{CastRoute}
use play_on_air.Bridge.Gates.{
  SessionFlags, playing_flags, ReloadPlan, LoadVolumePolicy, volume_after_load,
  late_load_should_stop, blocking_load, load_ran, cast_load_media, level_commands, level_after,
  stop_if,
}
use play_on_air.Bridge.Teardown.{
  TeardownCastPolicy, stop_best_effort, skip_stop_for_replace, replace_skips_cast_stop, FlagStore,
  forbid_late_stop, session_dies, flag_stores, store_flag,
}

abbrev pub stores_done : ℕ → List FlagStore → SessionFlags → SessionFlags
stores_done zero stores flags = flags
stores_done (suc n) [] flags = flags
stores_done (suc n) (s ∷ stores) flags = stores_done n stores (store_flag s flags)

-- The flags after the first stores of a teardown of a session that lives and plays.
abbrev pub flags_after : TeardownCastPolicy → ℕ → SessionFlags
flags_after policy n = stores_done n (flag_stores policy) playing_flags

-- What a LOAD reads when it is done: whether the session is alive, and later whether it may stop.
abbrev pub late_reads : TeardownCastPolicy → ℕ → ℕ → SessionFlags
late_reads policy i j = record {
  session_alive = (flags_after policy i).session_alive;
  late_stop_allowed = (flags_after policy j).late_stop_allowed;
  playback_paused = false;
}

abbrev pub is_stop : CastCommand → Bool
is_stop (load_media key request) = false
is_stop (set_level key level) = false
is_stop (pause_media key) = false
is_stop (play_media key) = false
is_stop (stop_media key) = true
is_stop (ended key) = false

abbrev pub has_stop : List CastCommand → Bool
has_stop [] = false
has_stop (c ∷ cs) = is_stop c || has_stop cs

stores_done_nil : (n : ℕ) (flags : SessionFlags) → stores_done n [] flags ≡ flags
stores_done_nil zero flags = refl
stores_done_nil (suc n) flags = refl

late_decision :
    (policy : TeardownCastPolicy) (i j : ℕ)
    → i ≤ j
    → late_load_should_stop
        (flags_after policy i).session_alive
        (flags_after policy j).late_stop_allowed
      ≡ (not (replace_skips_cast_stop policy) && not (flags_after policy i).session_alive)
unfolding late_load_should_stop flag_stores store_flag replace_skips_cast_stop
late_decision stop_best_effort zero j h = refl
late_decision stop_best_effort (suc i) zero h = absurd (omega (arith, h))
late_decision stop_best_effort (suc i) (suc j) h =
    rw
      (
        stores_done_nil i (store_flag session_dies playing_flags),
        stores_done_nil j (store_flag session_dies playing_flags),
      )
      refl
late_decision skip_stop_for_replace zero j h = refl
late_decision skip_stop_for_replace (suc zero) j h = refl
late_decision skip_stop_for_replace (suc (suc i)) zero h = absurd (omega (arith, h))
late_decision skip_stop_for_replace (suc (suc i)) (suc zero) h = absurd (omega (arith, h))
late_decision skip_stop_for_replace (suc (suc i)) (suc (suc j)) h =
    rw
      (
        stores_done_nil i (store_flag session_dies (store_flag forbid_late_stop playing_flags)),
        stores_done_nil j (store_flag session_dies (store_flag forbid_late_stop playing_flags)),
      )
      refl

has_stop-append : (xs ys : List CastCommand) → has_stop (xs ++ ys) ≡ (has_stop xs || has_stop ys)
has_stop-append [] ys = refl
has_stop-append (x ∷ xs) ys = rw (has_stop-append xs ys) (ground arith)

has_stop-level : (key : Text) (level : Option ℕ) → has_stop (level_commands key level) ≡ false
has_stop-level key none = refl
has_stop-level key (some level) = refl

has_stop-load :
    (route : CastRoute) (request : MediaLoadRequest) (volume : LoadVolumePolicy)
    (answer : Error ⊎ MediaSessionRef)
    → has_stop (cast_load_media route request volume answer).1 ≡ false
unfolding cast_load_media level_after
has_stop-load route request volume (inl e) = refl
has_stop-load route request volume (inr session) =
    has_stop-level route.volume (volume_after_load volume)

has_stop-stop_if : (stops : Bool) (key : Text) → has_stop (stop_if stops key) ≡ stops
has_stop-stop_if true key = refl
has_stop-stop_if false key = refl

-- A LOAD goes out for a session that lives and plays, and while it runs, the session is torn down. At
-- whatever moments of the teardown the LOAD then reads whether the session is alive, and after that
-- whether it may stop: it sends a STOP exactly if the session has died by its first reading and the
-- teardown is a full end. So a LOAD of a session that is replaced never stops the next one, unless
-- the client had paused.
pub blocking_load-has_stop :
    (policy : TeardownCastPolicy) (i j : ℕ) (plan : ReloadPlan) (answer : Error ⊎ MediaSessionRef)
    → i ≤ j
    → has_stop (blocking_load plan playing_flags (late_reads policy i j) answer).1
      ≡ (not (replace_skips_cast_stop policy) && not (flags_after policy i).session_alive)
unfolding blocking_load load_ran
blocking_load-has_stop policy i j plan answer h =
    let stops =
      late_load_should_stop (flags_after policy i).session_alive
        (flags_after policy j).late_stop_allowed in
    let sent = (cast_load_media plan.route plan.request plan.volume answer).1 in
    has_stop-append sent (stop_if stops plan.route.media)
    ∙ rw
        (
          has_stop-load plan.route plan.request plan.volume answer,
          has_stop-stop_if stops plan.route.media,
        )
        (late_decision policy i j h)
