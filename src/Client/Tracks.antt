-- ===== src/Client/Tracks.antt =====
-- What each operation of frontend/src/hooks/useMediaDevices.ts does to the tracks that run.
use video_calling.Base.{
  ℕ, ◌≡◌, ◌≢◌, inl, inr, refl, ap, sym, subst, ◌∙◌, arith, Bool, true, Option, none, some, List, [],
  ◌∷◌, All, Assoc, lookup, insert, lookup-insert, ◌==◌, Bool-cases, Option-cases,
}
use video_calling.Client.Media.{
  Track, MediaStream, Devices, Outcome, granted, denied, stop_tracks, stop_stream, stop_current,
  opened, toggle_first, start_media, stop_with, toggle_audio, toggle_video, toggle_mic_of,
  toggle_camera_of,
}

abbrev pub IsStopped : MediaStream → Type 0
IsStopped s =
    All (λ t. t.stopped ≡ true) s.audio_tracks × All (λ t. t.stopped ≡ true) s.video_tracks

abbrev pub IsStoppedAt : Option MediaStream → Type 0
IsStoppedAt none = Unit
IsStoppedAt (some s) = IsStopped s

-- Only the current stream may run, and the state shows the current stream.
pub record IsCurrent (d : Devices) : Type 0 where
  pub shown : d.stream ≡ d.stream_ref
  pub others : (id : ℕ) → d.stream_ref ≢ some id → IsStoppedAt (lookup id d.streams)

stop_tracks-stopped : (ts : List Track) → All (λ t. t.stopped ≡ true) (stop_tracks ts)
stop_tracks-stopped [] = tt
stop_tracks-stopped (t ∷ ts) = (refl, stop_tracks-stopped ts)

stopped-insert :
    (id k : ℕ) (s : MediaStream) (m : Assoc MediaStream)
    → (id ≡ k → IsStopped s)
    → (id ≢ k → IsStoppedAt (lookup k m))
    → IsStoppedAt (lookup k (insert id s m))
stopped-insert id k s m here there =
    subst IsStoppedAt (sym (lookup-insert id k s m)) (elim (Bool-cases (id == k)) [
      | inl same ↦ rw same (here (ground arith))
      | inr other ↦ rw other (there (ground arith))
    ])

-- After the current stream is stopped nothing runs.
pub stop_current-all :
    (o : Option ℕ) (d : Devices)
    → ((id : ℕ) → o ≢ some id → IsStoppedAt (lookup id d.streams))
    → (k : ℕ) → IsStoppedAt (lookup k (stop_current o d).streams)
stop_current-all none d others k = others k (λ e. cc)
stop_current-all (some id) d others k = elim (Option-cases (lookup id d.streams)) [
  | inl gone ↦ rw gone (elim (Bool-cases (id == k)) [
    | inl same ↦
        let e : id ≡ k = ground arith in
        subst (λ j. IsStoppedAt (lookup j d.streams)) e (rw gone tt)
    | inr other ↦ others k (λ e. ground arith)
  ])
  | inr (s, there) ↦ rw there (
      stopped-insert id k (stop_stream s) d.streams
        (λ e. (stop_tracks-stopped s.audio_tracks, stop_tracks-stopped s.video_tracks))
        (λ ne. others k (λ e. ne (ground arith))))
]

pub stop_current-refs :
    (o : Option ℕ) (d : Devices)
    → ((stop_current o d).stream ≡ d.stream) × ((stop_current o d).stream_ref ≡ d.stream_ref)
stop_current-refs none d = (refl, refl)
stop_current-refs (some id) d = elim (Option-cases (lookup id d.streams)) [
  | inl gone ↦ rw gone (refl, refl)
  | inr (s, there) ↦ rw there (refl, refl)
]

pub stop_current-flags :
    (o : Option ℕ) (d : Devices)
    → ((stop_current o d).mic_enabled ≡ d.mic_enabled)
      × ((stop_current o d).camera_enabled ≡ d.camera_enabled)
stop_current-flags none d = (refl, refl)
stop_current-flags (some id) d = elim (Option-cases (lookup id d.streams)) [
  | inl gone ↦ rw gone (refl, refl)
  | inr (s, there) ↦ rw there (refl, refl)
]

-- No track of any stream runs.
abbrev pub AllStopped : Devices → Type 0
AllStopped d = (k : ℕ) → IsStoppedAt (lookup k d.streams)

pub start_media-IsCurrent : (d : Devices) → IsCurrent d → IsCurrent (start_media d)
unfolding start_media
start_media-IsCurrent d h =
    let (shown, ref) = stop_current-refs d.stream_ref d in
    record {
      shown = shown ∙ (h.shown ∙ sym ref);
      others = λ k. λ other. stop_current-all d.stream_ref d h.others k;
    }

pub opened-IsCurrent :
    (video audio : Bool) (outcome : Outcome) (d : Devices)
    → IsCurrent d
    → AllStopped d
    → IsCurrent (opened video audio outcome d)
unfolding opened
opened-IsCurrent video audio (granted id s) d h stopped = record {
  shown = refl;
  others = λ k.
      λ other. stopped-insert id k s d.streams (λ e. absurd (other (ap some e))) (λ ne. stopped k);
}
opened-IsCurrent video audio (denied message) d h stopped = record {
  shown = h.shown;
  others = h.others;
}

pub stop_with-IsCurrent :
    (o : Option ℕ) (d : Devices) → d.stream_ref ≡ o → IsCurrent d → IsCurrent (stop_with o d)
stop_with-IsCurrent none d e h = h
stop_with-IsCurrent (some id) d e h = record {
  shown = refl;
  others =
      λ k. λ other. stop_current-all (some id) d (λ j. λ ne. h.others j (λ x. ne (sym e ∙ x))) k;
}

-- A change of the current stream's tracks leaves the others.
change-IsCurrent :
    (id : ℕ) (s : MediaStream) (mic camera : Bool) (d : Devices)
    → d.stream_ref ≡ some id
    → IsCurrent d
    → IsCurrent
        (record d { streams = insert id s d.streams; mic_enabled = mic; camera_enabled = camera })
change-IsCurrent id s mic camera d e h = record {
  shown = h.shown;
  others = λ k. λ other.
      stopped-insert id k s d.streams (λ same. absurd (other (e ∙ ap some same)))
        (λ ne. h.others k other);
}

toggle_audio-IsCurrent :
    (id : ℕ) (o : Option MediaStream) (d : Devices)
    → d.stream_ref ≡ some id
    → IsCurrent d
    → IsCurrent (toggle_audio id o d) × IsCurrent (toggle_video id o d)
toggle_audio-IsCurrent id none d e h = (h, h)
toggle_audio-IsCurrent id (some s) d e h =
    (change-IsCurrent id _ _ d.camera_enabled d e h, change-IsCurrent id _ d.mic_enabled _ d e h)

pub toggle-IsCurrent :
    (o : Option ℕ) (d : Devices)
    → d.stream_ref ≡ o
    → IsCurrent d
    → IsCurrent (toggle_mic_of o d) × IsCurrent (toggle_camera_of o d)
toggle-IsCurrent none d e h = (h, h)
toggle-IsCurrent (some id) d e h = toggle_audio-IsCurrent id (lookup id d.streams) d e h

-- A track that is switched over stays stopped.
toggle_first-stopped :
    (ts : List Track)
    → All (λ t. t.stopped ≡ true) ts
    → All (λ t. t.stopped ≡ true) (toggle_first ts).1
toggle_first-stopped [] h = tt
toggle_first-stopped (t ∷ ts) h = h

toggle_audio-AllStopped :
    (id : ℕ) (o : Option MediaStream) (d : Devices)
    → IsStoppedAt o
    → AllStopped d
    → AllStopped (toggle_audio id o d) × AllStopped (toggle_video id o d)
toggle_audio-AllStopped id none d s h = (h, h)
toggle_audio-AllStopped id (some s) d (audio, video) h = (
  λ k.
      stopped-insert id k _ d.streams (λ e. (toggle_first-stopped s.audio_tracks audio, video))
        (λ ne. h k),
  λ k.
      stopped-insert id k _ d.streams (λ e. (audio, toggle_first-stopped s.video_tracks video))
        (λ ne. h k),
)

pub toggle-AllStopped :
    (o : Option ℕ) (d : Devices)
    → AllStopped d
    → AllStopped (toggle_mic_of o d) × AllStopped (toggle_camera_of o d)
toggle-AllStopped none d h = (h, h)
toggle-AllStopped (some id) d h = toggle_audio-AllStopped id (lookup id d.streams) d (h id) h

pub stop_with-all :
    (o : Option ℕ) (d : Devices) → d.stream_ref ≡ o → IsCurrent d → AllStopped (stop_with o d)
stop_with-all none d e h k = h.others k (λ x. cc)
stop_with-all (some id) d e h k =
    stop_current-all (some id) d (λ j. λ ne. h.others j (λ x. ne (sym e ∙ x))) k
