-- ===== src/Gateway/Presence.antt =====
-- Who is online: `sockets` and `userSockets` agree.
use video_calling.Base.{
  ℕ, ◌<◌, ◌≡◌, refl, sym, ◌∙◌, ap, subst, Bool, true, false, Option, none, some, List, [], ◌∷◌,
  arith, ◌==◌, Assoc, lookup, insert, erase, lookup-insert, lookup-erase, length, length-append,
  if◌then◌else◌, non_empty, eq_some, Bool-cases, inl, inr, ==-self, ==_iff,
}
use video_calling.Gateway.{
  SocketMeta, World, Event, call_ended, participant_left, match_queue_status, peer_disconnected,
  send_all, broadcast_queue_status, ids, count_online_users, store, members, with_database, name,
  anonymous_name, origin,
}
use video_calling.Calls.{end_call, hung_up}
use video_calling.Sfu.{remove_participant}
use video_calling.Matchmaking.{queue_depth}
use video_calling.Gateway.Membership.{
  is_in, has_socket, is_of, is_user, AreInStep, has_socket-register, has_socket-unregister,
}
use video_calling.Gateway.Answering.{send_all-emitted}
use video_calling.Gateway.Connection.{
  add_socket, remove_socket, register_in, unregister_in, register_user, unregister_user, Handshake,
  handle_connection, connected, new_meta, forget_socket, dequeued, left_rooms, end_own_call,
  leave_own_room, disconnect, disconnect_known, handle_disconnect,
}

is_user-insert :
    (s x v : ℕ) (m : SocketMeta) (sockets : Assoc SocketMeta)
    → is_user (insert s m sockets) x v
      ≡ (if s == x then eq_some m.user_id v else is_user sockets x v)
is_user-insert s x v m sockets =
    ap (λ o. is_of o v) (lookup-insert s x m sockets)
    ∙ elim (Bool-cases (s == x)) [ inl same ↦ rw same refl | inr other ↦ rw other refl ]

is_user-erase :
    (s x v : ℕ) (sockets : Assoc SocketMeta)
    → is_user (erase s sockets) x v ≡ (if s == x then false else is_user sockets x v)
is_user-erase s x v sockets =
    ap (λ o. is_of o v) (lookup-erase s x sockets)
    ∙ elim (Bool-cases (s == x)) [ inl same ↦ rw same refl | inr other ↦ rw other refl ]

-- A socket under an equal id.
has-at :
    (users : Assoc (List ℕ)) (v s x : ℕ) (b : Bool)
    → (s == x) ≡ true
    → has_socket users v s ≡ b
    → has_socket users v x ≡ b
has-at users v s x b e h = subst (λ y. has_socket users v y ≡ b) ((==_iff s x).0 e) h

user-at :
    (sockets : Assoc SocketMeta) (u v x : ℕ)
    → (u == v) ≡ true
    → is_user sockets x u ≡ is_user sockets x v
user-at sockets u v x e = ap (is_user sockets x) ((==_iff u v).0 e)

connected-same :
    (s : ℕ) (m : SocketMeta) (o : Option ℕ) (sockets : Assoc SocketMeta) (users : Assoc (List ℕ))
    → m.user_id ≡ o
    → lookup s sockets ≡ none
    → AreInStep sockets users
    → (v x : ℕ) → has_socket (register_user o s users) v x ≡ is_user (insert s m sockets) x v
connected-same s m none sockets users e new h v x =
    let off : has_socket users v s ≡ false = h.same v s ∙ ap (λ o. is_of o v) new in
    sym (
      is_user-insert s x v m sockets ∙ elim (Bool-cases (s == x)) [
        | inl same ↦ rw same (ap (λ o. eq_some o v) e ∙ sym (has-at users v s x false same off))
        | inr other ↦ rw other (sym (h.same v x))
      ])
connected-same s m (some u) sockets users e new h v x =
    let off : has_socket users v s ≡ false = h.same v s ∙ ap (λ o. is_of o v) new in
    has_socket-register u s v x (lookup u users) users
    ∙ sym (
        is_user-insert s x v m sockets
        ∙ (ap (λ o. if s == x then eq_some o v else is_user sockets x v) e
            ∙ ground (
              arith,
              h.same v x,
              h.same u x,
              has-at users v s x false,
              off,
              user-at sockets u v x,
            )))

disconnected-same :
    (s : ℕ) (m : SocketMeta) (o : Option ℕ) (sockets : Assoc SocketMeta) (users : Assoc (List ℕ))
    → m.user_id ≡ o
    → lookup s sockets ≡ some m
    → AreInStep sockets users
    → (v x : ℕ) → has_socket (unregister_user o s users) v x ≡ is_user (erase s sockets) x v
disconnected-same s m none sockets users e found h v x =
    let off : has_socket users v s ≡ false =
      h.same v s ∙ (ap (λ o. is_of o v) found ∙ ap (λ o. eq_some o v) e) in
    sym (
      is_user-erase s x v sockets ∙ elim (Bool-cases (s == x)) [
        | inl same ↦ rw same (sym (has-at users v s x false same off))
        | inr other ↦ rw other (sym (h.same v x))
      ])
disconnected-same s m (some u) sockets users e found h v x =
    let own : has_socket users v s ≡ (u == v) =
      h.same v s ∙ (ap (λ o. is_of o v) found ∙ ap (λ o. eq_some o v) e) in
    has_socket-unregister u s v x (lookup u users) users refl
    ∙ sym (
        is_user-erase s x v sockets
        ∙ ground (
          arith,
          h.same v x,
          h.same u x,
          has-at users v s x (u == v),
          own,
          user-at sockets u v x,
        ))

AreFilled : Assoc (List ℕ) → Type 0
AreFilled users = (user : ℕ) (ss : List ℕ) → lookup user users ≡ some ss → 0 < length ss

insert-AreFilled :
    (u : ℕ) (set : List ℕ) (users : Assoc (List ℕ))
    → 0 < length set
    → AreFilled users
    → AreFilled (insert u set users)
unfolding AreFilled
insert-AreFilled u set users pos h v ss e = elim (Bool-cases (u == v)) [
  | inl same ↦
      let r : ◌≡◌ {A = Option (List ℕ)} (some set) (some ss) =
        sym (lookup-insert u v set users ∙ rw same refl) ∙ e in
      let eq : set ≡ ss = cc in subst (λ l. 0 < length l) eq pos
  | inr other ↦ h v ss (sym (lookup-insert u v set users ∙ rw other refl) ∙ e)
]

add_socket-pos : (s : ℕ) (ss : List ℕ) → 0 < length ss → 0 < length (add_socket s ss)
add_socket-pos s ss pos = elim (Bool-cases (is_in ss s)) [
  | inl there ↦ rw there pos
  | inr new ↦ rw new (omega (arith, length-append ss (s ∷ []), pos))
]

register-AreFilled :
    (u s : ℕ) (o : Option (List ℕ)) (users : Assoc (List ℕ))
    → lookup u users ≡ o
    → AreFilled users
    → AreFilled (register_in o u s users)
unfolding AreFilled
register-AreFilled u s none users e h = insert-AreFilled u (s ∷ []) users (omega arith) h
register-AreFilled u s (some ss) users e h =
    insert-AreFilled u (add_socket s ss) users (add_socket-pos s ss (h u ss e)) h

unregister-AreFilled :
    (u s : ℕ) (o : Option (List ℕ)) (users : Assoc (List ℕ))
    → AreFilled users
    → AreFilled (unregister_in o u s users)
unfolding AreFilled
unregister-AreFilled u s none users h = h
unregister-AreFilled u s (some ss) users h = elim (Bool-cases (length (remove_socket s ss) == 0)) [
  | inl gone ↦ rw gone (λ v. λ l. λ e. h v l (ground (arith, lookup-erase u v users, e)))
  | inr stays ↦ rw stays (insert-AreFilled u (remove_socket s ss) users (ground arith) h)
]

connected-AreFilled :
    (o : Option ℕ) (s : ℕ) (users : Assoc (List ℕ))
    → AreFilled users
    → AreFilled (register_user o s users)
connected-AreFilled none s users h = h
connected-AreFilled (some u) s users h = register-AreFilled u s (lookup u users) users refl h

disconnected-AreFilled :
    (o : Option ℕ) (s : ℕ) (users : Assoc (List ℕ))
    → AreFilled users
    → AreFilled (unregister_user o s users)
disconnected-AreFilled none s users h = h
disconnected-AreFilled (some u) s users h = unregister-AreFilled u s (lookup u users) users h

sent-maps :
    (ss : List ℕ) (e : Event) (w : World)
    → ((send_all ss e w).sockets ≡ w.sockets) × ((send_all ss e w).user_sockets ≡ w.user_sockets)
sent-maps ss e w = (
  ap (λ x. x.sockets) (send_all-emitted ss e w),
  ap (λ x. x.user_sockets) (send_all-emitted ss e w),
)

broadcast-maps :
    (w : World)
    → ((broadcast_queue_status w).sockets ≡ w.sockets)
      × ((broadcast_queue_status w).user_sockets ≡ w.user_sockets)
unfolding broadcast_queue_status
broadcast-maps w =
    sent-maps (ids w.sockets) (match_queue_status (count_online_users w) (queue_depth (store w))) w

AreInStep-of :
    (sockets t : Assoc SocketMeta) (users v : Assoc (List ℕ))
    → t ≡ sockets
    → v ≡ users
    → AreInStep sockets users
    → AreInStep t v
AreInStep-of sockets t users v p q h =
    subst (λ y. AreInStep t y) (sym q) (subst (λ x. AreInStep x users) (sym p) h)

-- When a socket connects that was not connected, whether as a user or not, `userSockets` and `sockets`
-- stay in step: each user has exactly the connected sockets of the user, and no set is empty.
pub handle_connection-AreInStep :
    (verify : ℕ → Option ℕ) (s anonymous_id : ℕ) (h : Handshake) (w : World)
    → lookup s w.sockets ≡ none
    → AreInStep w.sockets w.user_sockets
    → let v : World = handle_connection verify s anonymous_id h w in
      AreInStep v.sockets v.user_sockets
unfolding handle_connection AreFilled
handle_connection-AreInStep verify s anonymous_id h w new v =
    let m : SocketMeta = new_meta verify anonymous_id h in
    let maps = broadcast-maps (connected s m w) in
    AreInStep-of (connected s m w).sockets _ (connected s m w).user_sockets _ maps.0 maps.1
      (record {
        same = connected-same s m m.user_id w.sockets w.user_sockets refl new v;
        filled = connected-AreFilled m.user_id s w.user_sockets v.filled;
      })

end_own_call-maps :
    (now : ℕ) (m : SocketMeta) (o : Option ℕ) (w : World)
    → ((end_own_call now m o w).sockets ≡ w.sockets)
      × ((end_own_call now m o w).user_sockets ≡ w.user_sockets)
unfolding end_own_call
end_own_call-maps now m none w = (refl, refl)
end_own_call-maps now m (some k) w =
    sent-maps (members k w.rooms) (call_ended k peer_disconnected)
      (with_database (end_call now k (name m) (anonymous_name m) hung_up (origin m)) w)

leave_own_room-maps :
    (s : ℕ) (o : Option ℕ) (w : World)
    → ((leave_own_room s o w).sockets ≡ w.sockets)
      × ((leave_own_room s o w).user_sockets ≡ w.user_sockets)
unfolding leave_own_room
leave_own_room-maps s none w = (refl, refl)
leave_own_room-maps s (some k) w =
    sent-maps (members k w.rooms) (participant_left s)
      (record w { sfu = remove_participant k s w.sfu })

-- When a connected socket disconnects, in a call or not, in a room or not, `userSockets` and `sockets`
-- stay in step, and the socket is not connected any more.
pub handle_disconnect-AreInStep :
    (s now : ℕ) (w : World) (m : SocketMeta)
    → lookup s w.sockets ≡ some m
    → AreInStep w.sockets w.user_sockets
    → let v : World = handle_disconnect s now w in
      AreInStep v.sockets v.user_sockets × (lookup s v.sockets ≡ none)
unfolding handle_disconnect disconnect_known disconnect AreFilled
handle_disconnect-AreInStep s now w m found v =
    let a : World = dequeued s now (left_rooms s w) in
    let b : World = end_own_call now m (non_empty m.call_id) a in
    let c : World = leave_own_room s (non_empty m.room_id) b in
    let e : World = forget_socket s m c in
    let mb = end_own_call-maps now m (non_empty m.call_id) a in
    let mc = leave_own_room-maps s (non_empty m.room_id) b in
    let me = broadcast-maps e in
    let run : handle_disconnect s now w ≡ broadcast_queue_status e =
      ap (λ o. disconnect_known s now o w) found in
    let sockets : (handle_disconnect s now w).sockets ≡ erase s w.sockets =
      ap (λ x. x.sockets) run ∙ (me.0 ∙ ap (erase s) (mc.0 ∙ mb.0)) in
    let users : (handle_disconnect s now w).user_sockets
        ≡ unregister_user m.user_id s w.user_sockets =
      ap (λ x. x.user_sockets) run ∙ (me.1 ∙ ap (unregister_user m.user_id s) (mc.1 ∙ mb.1)) in
    (
      AreInStep-of (erase s w.sockets) _ (unregister_user m.user_id s w.user_sockets) _ sockets
          users
          (record {
            same = disconnected-same s m m.user_id w.sockets w.user_sockets refl found v;
            filled = disconnected-AreFilled m.user_id s w.user_sockets v.filled;
          }),
      ap (lookup s) sockets ∙ (lookup-erase s s w.sockets ∙ rw (==-self s) refl),
    )
