-- ===== src/Client/Media.antt =====
-- frontend/src/hooks/useMediaDevices.ts. A media stream is an object that the reference and the state
-- share: it stands under its number in `streams`, with every stream that the browser ever gave.
use video_calling.Base.{
  ℕ, Bool, true, false, not, ◌&&◌, Option, none, some, List, [], ◌∷◌, Assoc, lookup, insert,
  exists_where, or_else, non_empty,
}

pub record Track : Type 0 where
  pub enabled : Bool
  pub stopped : Bool

pub record MediaStream : Type 0 where
  pub audio_tracks : List Track
  pub video_tracks : List Track

-- `error` holds the message of the last failure.
pub record Devices : Type 0 where
  pub streams : Assoc MediaStream
  pub stream_ref : Option ℕ
  pub stream : Option ℕ
  pub mic_enabled : Bool
  pub camera_enabled : Bool
  pub error : Option ℕ

-- What `getUserMedia` comes to: a new stream, or an error with its message.
pub data Outcome : Type 0 where
  granted : (id : ℕ) → MediaStream → Outcome
  denied : (message : Option ℕ) → Outcome

-- The state before the first call.
abbrev pub untouched : Devices
untouched = record {
  streams = [];
  stream_ref = none;
  stream = none;
  mic_enabled = true;
  camera_enabled = true;
  error = none;
}

abbrev pub stopped_track : Track → Track
stopped_track t = record t { stopped = true }

abbrev pub stop_tracks : List Track → List Track
stop_tracks [] = []
stop_tracks (t ∷ ts) = stopped_track t ∷ stop_tracks ts

abbrev pub stop_stream : MediaStream → MediaStream
stop_stream s = record {
  audio_tracks = stop_tracks s.audio_tracks;
  video_tracks = stop_tracks s.video_tracks;
}

-- A change of the stream under a number.
abbrev pub change_found :
    (id : ℕ) → (MediaStream → MediaStream) → Option MediaStream → Devices → Devices
change_found id f none d = d
change_found id f (some s) d = record d { streams = insert id (f s) d.streams }

-- `getTracks().forEach(track => track.stop())` of the current stream, if there is one.
abbrev pub stop_current : Option ℕ → Devices → Devices
stop_current none d = d
stop_current (some id) d = change_found id stop_stream (lookup id d.streams) d

-- `startMedia` as far as its request to the browser; `opened` is the rest, which runs when the
-- browser has answered.
unfoldable pub start_media : Devices → Devices
start_media d = stop_current d.stream_ref d

abbrev some_enabled : List Track → Bool
some_enabled ts = exists_where (λ t. t.enabled) ts

-- 'Failed to access media devices'
abbrev default_message : ℕ
default_message = 1

unfoldable pub opened : (video audio : Bool) → Outcome → Devices → Devices
opened video audio (granted id s) d = record d {
  streams = insert id s d.streams;
  stream_ref = some id;
  stream = some id;
  camera_enabled = video && some_enabled s.video_tracks;
  mic_enabled = audio && some_enabled s.audio_tracks;
  error = none;
}
opened video audio (denied message) d = record d {
  error = some (or_else (non_empty message) default_message);
}

abbrev pub stop_with : Option ℕ → Devices → Devices
stop_with none d = d
stop_with (some id) d = record (stop_current (some id) d) {
  stream_ref = none;
  stream = none;
  camera_enabled = false;
  mic_enabled = false;
}

unfoldable pub stop_media : Devices → Devices
stop_media d = stop_with d.stream_ref d

-- The first track is switched over; the result is its new setting, or false where there is none.
abbrev pub toggle_first : List Track → Bool × List Track
toggle_first [] = (false, [])
toggle_first (t ∷ ts) = (not t.enabled, record t { enabled = not t.enabled } ∷ ts)

abbrev pub toggle_audio : (id : ℕ) → Option MediaStream → Devices → Devices
toggle_audio id none d = d
toggle_audio id (some s) d =
    let (on, tracks) = toggle_first s.audio_tracks in
    record d {
      streams = insert id (record s { audio_tracks = tracks }) d.streams;
      mic_enabled = on;
    }

abbrev pub toggle_video : (id : ℕ) → Option MediaStream → Devices → Devices
toggle_video id none d = d
toggle_video id (some s) d =
    let (on, tracks) = toggle_first s.video_tracks in
    record d {
      streams = insert id (record s { video_tracks = tracks }) d.streams;
      camera_enabled = on;
    }

abbrev pub toggle_mic_of : Option ℕ → Devices → Devices
toggle_mic_of none d = d
toggle_mic_of (some id) d = toggle_audio id (lookup id d.streams) d

abbrev pub toggle_camera_of : Option ℕ → Devices → Devices
toggle_camera_of none d = d
toggle_camera_of (some id) d = toggle_video id (lookup id d.streams) d

unfoldable pub toggle_mic : Devices → Devices
toggle_mic d = toggle_mic_of d.stream_ref d

unfoldable pub toggle_camera : Devices → Devices
toggle_camera d = toggle_camera_of d.stream_ref d
