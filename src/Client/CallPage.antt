-- ===== src/Client/CallPage.antt =====
-- frontend/src/app/call/page.tsx: the page of a direct call, without its rendering and navigation.
-- The partner's id is a string, 0 being the empty one.
use video_calling.Base.{
  ℕ, ◌≡◌, refl, arith, Bool, true, false, not, ◌&&◌, Option, none, some, List, [], ◌∷◌,
  if◌then◌else◌, ◌==◌, truthy, truthy_option, lookup,
}
use video_calling.Client.Media.{
  Track, MediaStream, Devices, Outcome, opened, start_media, stop_media, toggle_camera,
}

-- `useState<"voice" | "video">`
pub data CallKind : Type 0 where
  voice video : CallKind

abbrev pub is_video : CallKind → Bool
is_video video = true
is_video voice = false

abbrev pub switched : CallKind → CallKind
switched video = voice
switched voice = video

pub data Emitted : Type 0 where
  upgrade downgrade : (call_id : ℕ) → Emitted
  request_save : (call_id to_user : ℕ) → Emitted

pub record CallView : Type 0 where
  pub call_id : ℕ
  pub is_initiator : Bool
  pub call_type : CallKind
  pub partner_user_id : Option ℕ
  pub contact_request_sent : Bool
  pub devices : Devices

abbrev pub Handled : Type 0
Handled = List Emitted × CallView

-- `call:accepted`
unfoldable pub on_accepted : (acceptor initiator : Option ℕ) → CallView → CallView
on_accepted acceptor initiator v =
    if v.is_initiator && truthy_option acceptor
    then record v { partner_user_id = acceptor }
    else if not v.is_initiator && truthy_option initiator
    then record v { partner_user_id = initiator }
    else v

-- `call:incoming`
unfoldable pub on_incoming : (call_id : ℕ) (caller : Option ℕ) → CallView → CallView
on_incoming call_id caller v =
    if call_id == v.call_id && truthy_option caller
    then record v { partner_user_id = caller }
    else v

abbrev pub saving : Option ℕ → CallView → Handled
saving none v = ([], v)
saving (some partner) v =
    if truthy partner
    then (request_save v.call_id partner ∷ [], record v { contact_request_sent = true })
    else ([], v)

unfoldable pub handle_save_contact : CallView → Handled
handle_save_contact v = saving v.partner_user_id v

abbrev pub switch_event : CallKind → (call_id : ℕ) → Emitted
switch_event video call_id = upgrade call_id
switch_event voice call_id = downgrade call_id

-- The camera of the new type: it is toggled where it is not as the type wants it.
abbrev pub fit_camera : CallKind → Devices → Devices
fit_camera voice d = if d.camera_enabled then toggle_camera d else d
fit_camera video d = if not d.camera_enabled then toggle_camera d else d

unfoldable pub handle_switch_type : CallView → Handled
handle_switch_type v =
    let new_type = switched v.call_type in
    (
      switch_event new_type v.call_id ∷ [],
      record v { call_type = new_type; devices = fit_camera new_type v.devices },
    )

-- The effect that runs when the call's type changes: the old effect's cleanup stops the media, and
-- new media are asked for. `restarted` is what it comes to, with the type that was asked for.
unfoldable pub restart : CallView → CallView
restart v =
    if truthy v.call_id then record v { devices = start_media (stop_media v.devices) } else v

unfoldable pub restarted : CallKind → Outcome → CallView → CallView
restarted asked outcome v = record v { devices = opened (is_video asked) true outcome v.devices }

-- The camera of the shown stream is as the state says.
abbrev pub HasCamera : (id : ℕ) → MediaStream → Track → List Track → Devices → Type 0
HasCamera id s t ts d =
    (d.stream_ref ≡ some id)
    × (lookup id d.streams ≡ some s)
    × (s.video_tracks ≡ t ∷ ts)
    × (d.camera_enabled ≡ t.enabled)

toggle_camera-flag :
    (id : ℕ) (s : MediaStream) (t : Track) (ts : List Track) (d : Devices)
    → HasCamera id s t ts d
    → (toggle_camera d).camera_enabled ≡ not d.camera_enabled
unfolding toggle_camera
toggle_camera-flag id s t ts d (ref, found, tracks, flag) = rw (ref, found, tracks, flag) refl

-- Switching the type of a call whose stream has a camera turns the camera on for a video call and
-- off for a voice call, and tells the server of the new type.
pub handle_switch_type-camera :
    (id : ℕ) (s : MediaStream) (t : Track) (ts : List Track) (v : CallView)
    → HasCamera id s t ts v.devices
    → ((handle_switch_type v).1.devices.camera_enabled ≡ is_video (switched v.call_type))
      × ((handle_switch_type v).0 ≡ switch_event (switched v.call_type) v.call_id ∷ [])
unfolding handle_switch_type
handle_switch_type-camera id s t ts v h = (fit v.call_type, refl)
  where
    fit :
        (k : CallKind) → (fit_camera (switched k) v.devices).camera_enabled ≡ is_video (switched k)
    fit video = ground (arith, toggle_camera-flag id s t ts v.devices h)
    fit voice = ground (arith, toggle_camera-flag id s t ts v.devices h)
