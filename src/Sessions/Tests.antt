-- ===== src/Sessions/Tests.antt =====
-- The properties of this component at concrete inputs.
use video_calling.Base.{◌≡◌, ◌≢◌, refl, true, arith}
use video_calling.Database.{unauthorized, invalid_refresh_token, ok, err}
use video_calling.Samples.{plus_1000, signed_in, ada_token, draw}
use video_calling.Sessions.{rotate, upsert_csrf, is_valid_csrf, revoke_session}
use video_calling.Sessions.Rotation.{IsDead, rotate_replayed}
use video_calling.Sessions.Family.{HasOneLive, here, next, revokes, Reach-HasOneLive}
use video_calling.Sessions.Csrf.{is_valid-upsert}

rotate_replayed_example :
    let (answer, after) =
      rotate plus_1000 (draw 8 3) 20 1 (rotate plus_1000 (draw 6 2) 10 1 signed_in).1 in
    (answer ≡ err (unauthorized invalid_refresh_token))
    × IsDead 3 7 after
    × (rotate plus_1000 (draw 9 4) 30 2 after
        ≢ (ok (record { new_raw_token = 4; session_id = 7 }), signed_in))
unfolding rotate
rotate_replayed_example =
    rotate_replayed plus_1000 (draw 6 2) (draw 8 3) (draw 9 4) 10 20 30 1 signed_in
      (rotate plus_1000 (draw 6 2) 10 1 signed_in).1 signed_in
      (record { new_raw_token = 2; session_id = 7 }) (record { new_raw_token = 4; session_id = 7 })
      ada_token refl refl (omega arith)

signed_in-HasOneLive : HasOneLive signed_in
signed_in-HasOneLive family_id = ground arith

Reach-HasOneLive_example : HasOneLive (revoke_session 7 signed_in)
Reach-HasOneLive_example =
    Reach-HasOneLive plus_1000 {d = signed_in} {e = revoke_session 7 signed_in} signed_in-HasOneLive
      (next here (revokes 7 signed_in))

is_valid-upsert_example :
    is_valid_csrf plus_1000 7 5 20 (upsert_csrf plus_1000 5 7 10 signed_in) ≡ true
is_valid-upsert_example = is_valid-upsert plus_1000 5 7 10 5 20 signed_in
