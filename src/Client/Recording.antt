-- ===== src/Client/Recording.antt =====
-- Which tracks run over every history of useMediaDevices in which startMedia waits for its answer
-- (frontend/src/hooks/useMediaDevices.ts).
use video_calling.Base.{
  ℕ, ◌≡◌, refl, ◌∙◌, Bool, true, false, ==-self, Option, some, lookup, lookup-insert,
}
use video_calling.Client.Media.{
  MediaStream, Devices, Outcome, granted, denied, untouched, opened, start_media, stop_with,
  stop_media, toggle_mic_of, toggle_camera_of, toggle_mic, toggle_camera,
}
use video_calling.Client.Tracks.{
  IsStoppedAt, IsCurrent, stop_current-all, stop_current-refs, stop_current-flags, AllStopped,
  start_media-IsCurrent, opened-IsCurrent, stop_with-IsCurrent, toggle-IsCurrent, toggle-AllStopped,
  stop_with-all,
}

-- What the calls of a page make of the first state, where `asking` says that the browser has not yet
-- answered a request of startMedia. The media are stopped and toggled at any time; startMedia is not
-- called again before the browser has answered.
pub data IsUsed : (asking : Bool) → Devices → Type 0 where
  first : IsUsed false untouched
  starts : (d : Devices) → IsUsed false d → IsUsed true (start_media d)
  answers :
      (video audio : Bool) (outcome : Outcome) (d : Devices)
      → IsUsed true d
      → IsUsed false (opened video audio outcome d)
  stops : (asking : Bool) (d : Devices) → IsUsed asking d → IsUsed asking (stop_media d)
  toggles_mic : (asking : Bool) (d : Devices) → IsUsed asking d → IsUsed asking (toggle_mic d)
  toggles_camera : (asking : Bool) (d : Devices) → IsUsed asking d → IsUsed asking (toggle_camera d)

-- While the browser is asked nothing runs.
abbrev pub IsQuiet : (asking : Bool) → Devices → Type 0
IsQuiet true d = AllStopped d
IsQuiet false d = Unit

IsQuiet-of : (asking : Bool) (d : Devices) → AllStopped d → IsQuiet asking d
IsQuiet-of true d h = h
IsQuiet-of false d h = tt

IsQuiet-change :
    (asking : Bool) (d e : Devices)
    → (AllStopped d → AllStopped e)
    → IsQuiet asking d
    → IsQuiet asking e
IsQuiet-change true d e f h = f h
IsQuiet-change false d e f h = tt

-- Over every such history, with every outcome of getUserMedia, the shown stream is the one that the
-- reference holds, the tracks of every other stream that the browser ever gave are stopped, and while
-- the browser is asked nothing runs.
pub used-IsCurrent :
    (asking : Bool) (d : Devices) → IsUsed asking d → IsCurrent d × IsQuiet asking d
unfolding start_media stop_media toggle_mic toggle_camera
used-IsCurrent _ _ first = (record { shown = refl; others = λ id. λ ne. tt }, tt)
used-IsCurrent _ _ (starts d u) =
    let (h, _) = used-IsCurrent false d u in
    (start_media-IsCurrent d h, stop_current-all d.stream_ref d h.others)
used-IsCurrent _ _ (answers video audio outcome d u) =
    let (h, quiet) = used-IsCurrent true d u in (opened-IsCurrent video audio outcome d h quiet, tt)
used-IsCurrent _ _ (stops asking d u) =
    let (h, _) = used-IsCurrent asking d u in
    (
      stop_with-IsCurrent d.stream_ref d refl h,
      IsQuiet-of asking (stop_with d.stream_ref d) (stop_with-all d.stream_ref d refl h),
    )
used-IsCurrent _ _ (toggles_mic asking d u) =
    let (h, quiet) = used-IsCurrent asking d u in
    (
      (toggle-IsCurrent d.stream_ref d refl h).0,
      IsQuiet-change asking d (toggle_mic_of d.stream_ref d)
          (λ s. (toggle-AllStopped d.stream_ref d s).0) quiet,
    )
used-IsCurrent _ _ (toggles_camera asking d u) =
    let (h, quiet) = used-IsCurrent asking d u in
    (
      (toggle-IsCurrent d.stream_ref d refl h).1,
      IsQuiet-change asking d (toggle_camera_of d.stream_ref d)
          (λ s. (toggle-AllStopped d.stream_ref d s).1) quiet,
    )

-- At the end of every history of calls in which startMedia is not called again before the browser has
-- answered, stopMedia leaves no track running of any stream that the browser ever gave. If the
-- browser has not yet answered a request then, the stream that it still gives runs as it was given.
pub stop_media-IsStopped :
    (asking : Bool) (d : Devices)
    → IsUsed asking d
    → ((k : ℕ) → IsStoppedAt (lookup k (stop_media d).streams))
      × ((video audio : Bool) (id : ℕ) (s : MediaStream)
          → lookup id (opened video audio (granted id s) (stop_media d)).streams ≡ some s)
unfolding stop_media opened
stop_media-IsStopped asking d u = (
  stop_with-all d.stream_ref d refl (used-IsCurrent asking d u).0,
  λ video. λ audio.
      λ id. λ s. lookup-insert id id s (stop_with d.stream_ref d).streams ∙ rw (==-self id) refl,
)

-- When access is denied, the tracks that ran before are stopped all the same, while the page goes on
-- showing the old stream, with the microphone and the camera as they were set.
pub start_media-denied :
    (video audio : Bool) (message : Option ℕ) (d : Devices)
    → IsUsed false d
    → let e = opened video audio (denied message) (start_media d) in
      ((k : ℕ) → IsStoppedAt (lookup k e.streams))
      × (e.stream ≡ d.stream)
      × (e.mic_enabled ≡ d.mic_enabled)
      × (e.camera_enabled ≡ d.camera_enabled)
unfolding start_media opened
start_media-denied video audio message d u =
    let (shown, ref) = stop_current-refs d.stream_ref d in
    let (mic, camera) = stop_current-flags d.stream_ref d in
    (λ k. stop_current-all d.stream_ref d (used-IsCurrent false d u).0.others k, shown, mic, camera)
