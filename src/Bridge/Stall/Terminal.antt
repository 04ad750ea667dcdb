-- ===== src/Bridge/Stall/Terminal.antt =====
-- The end of a session whose stall cannot be mended (crates/play-on-air/src/bridge/stall.rs).
use play_on_air.Prelude.{ℕ, List, [], ◌∷◌, Option, none, some}
use play_on_air.Prelude.Text.{Text}
use play_on_air.Bridge.State.{PlayingSession, Bridge}
use play_on_air.Bridge.Teardown.{take_live_session_if_gen}
use play_on_air.Bridge.Group.Owner.{session_group, end_group}

-- The session that is torn down, the host that is closed, and the receivers that are kicked.
pub record StallEnd : Type 0 where
  pub session : Option PlayingSession
  pub session_host : Option Text
  pub kicked : List Text

-- `unwrap_or_default` of `end_group`.
abbrev pub end_owned : Option Text → Bridge → (List Text × Option Text) × Bridge
end_owned none b = (([], none), b)
end_owned (some uuid) b = end_group uuid b

-- The group is read before the session is taken; only the taking heeds the generation.
unfoldable pub terminal_stall_end : Text → ℕ → Bridge → StallEnd × Bridge
terminal_stall_end device_id generation b =
    let (taken, b') = take_live_session_if_gen device_id generation b in
    let ((followers, session_host), ended) = end_owned (session_group device_id b) b' in
    (record { session = taken; session_host = session_host; kicked = device_id ∷ followers }, ended)
