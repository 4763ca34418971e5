-- ===== src/Sfu/Tests.antt =====
-- The properties of this component at concrete inputs.
use video_calling.Base.{ℕ, ◌≡◌, ◌≢◌, true, [], ◌∷◌, lookup}
use video_calling.Sfu.{Sfu, new_room, remove_participant, create_web_rtc_transport}
use video_calling.Sfu.Leaving.{HasLeft, remove_participant-left}
use video_calling.Sfu.Rooms.{AllOwned, step-AllOwned, transports}

abbrev two_workers : Sfu
two_workers = record {
  loaded = true;
  workers = 5 ∷ 6 ∷ [];
  worker_index = 3;
  rooms = [];
  events = [];
}

abbrev one_room : Sfu
one_room = record two_workers {
  rooms =
      (
        9,
        record (new_room 4 5) {
          transports = record { peer = 7; id = 8 } ∷ [];
          participants = 7 ∷ [];
        },
      )
      ∷ [];
}

step-AllOwned_example : AllOwned (create_web_rtc_transport 8 9 7 two_workers).1
step-AllOwned_example =
    step-AllOwned two_workers (create_web_rtc_transport 8 9 7 two_workers).1
      (transports 8 9 7 two_workers) (λ k. λ room. λ e. absurd (cc))

remove_participant-left_example :
    HasLeft 7 (lookup 9 one_room.rooms) (lookup 9 (remove_participant 9 7 one_room).rooms)
    × ((j : ℕ)
        → ◌≢◌ {A = ℕ} j 9
        → lookup j (remove_participant 9 7 one_room).rooms ≡ lookup j one_room.rooms)
remove_participant-left_example = remove_participant-left 9 7 one_room
