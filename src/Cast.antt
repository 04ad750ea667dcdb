-- ===== src/Cast.antt =====
-- crates/play-on-air/src/cast/mod.rs: what a LOAD asks of a receiver and what it answers.
--
-- A receiver is reached over a `CastControl`, the warm pool; what the bridge asks of it is a
-- `CastCommand`, and its answers are inputs of the definitions that read them.
use play_on_air.Prelude.{ℕ, Bool, ◌&&◌, not, Option, none, is_some}
use play_on_air.Prelude.Text.{Text, codes}

pub data CastStreamKind : Type 0 where
  buffered live : CastStreamKind

pub record CastTrack : Type 0 where
  pub title : Option Text
  pub artist : Option Text
  pub album : Option Text
  pub image_url : Option Text

-- `CastTrack::default`.
abbrev pub no_track : CastTrack
no_track = record { title = none; artist = none; album = none; image_url = none }

unfoldable pub is_empty_track : CastTrack → Bool
is_empty_track track =
    not (is_some track.title)
    && not (is_some track.artist)
    && not (is_some track.album)
    && not (is_some track.image_url)

pub record MediaLoadRequest : Type 0 where
  pub content_url : Text
  pub content_type : Text
  pub stream_kind : CastStreamKind
  pub track : CastTrack

unfoldable pub flac : Text → CastStreamKind → MediaLoadRequest
flac url kind = record {
  content_url = url;
  content_type = codes "audio/flac";
  stream_kind = kind;
  track = no_track;
}

unfoldable pub wav : Text → CastStreamKind → MediaLoadRequest
wav url kind = record {
  content_url = url;
  content_type = codes "audio/wav";
  stream_kind = kind;
  track = no_track;
}

unfoldable pub with_track : CastTrack → MediaLoadRequest → MediaLoadRequest
with_track track request = record request { track = track }

pub record MediaSessionRef : Type 0 where
  pub transport_id : Text
  pub session_id : Text
  pub media_session_id : ℕ
  pub queue_item_id : Option ℕ

-- A command for the worker of a key. A volume is the bits of its level.
pub data CastCommand : Type 0 where
  load_media : Text → MediaLoadRequest → CastCommand
  set_level : Text → ℕ → CastCommand
  pause_media play_media stop_media ended : Text → CastCommand
