-- ===== src/Session/Outbox.antt =====
-- mqtt/mqtt_session.c: the session's handlers and its message store: the store's invariant is kept,
-- and a session that starts again sends what its outbox has sent.
use tiny_mqtt.Prelude.{
  ℕ, ◌+◌, ◌*◌, ◌%◌, ◌≤◌, ◌≡◌, refl, sym, ap, ◌∙◌, Bool, true, false, Option, none, some, List, [],
  ◌∷◌, ◌++◌, length, take, map, take-all, append-nil, not, ◌&&◌, ◌||◌, c_str, if◌then◌else◌, arith,
  Bool-cases, inl, inr, ltb, Str,
}
use tiny_mqtt.Packet.{PublishPkt, publish, pubrel}
use tiny_mqtt.Store.{
  SendingPacket, Pointer, null, at, freed, Acknowledged, ack_publish, ack_pubrel,
  memory_store_store_message,
}
use tiny_mqtt.Store.Refines.{
  PendingAt, IsStore, entry, outbox, memory_store_store_message-IsStore,
  outbox-memory_store_store_message,
}
use tiny_mqtt.Store.Spec.{submit}
use tiny_mqtt.Store.Acknowledge.{memory_store_acknowledge-settle}
use tiny_mqtt.Session.{
  Session, SessionEffect, send, act, acknowledge, report_finish, send_next, before_pending,
  following_id, tmq_session_start,
}
use tiny_mqtt.Session.Transmit.{retain_flag, publish_stored, tmq_session_publish}
use tiny_mqtt.Session.Receive.{
  stamped, store_pubrel, tmq_session_handle_puback, tmq_session_handle_pubrec,
  tmq_session_handle_pubcomp,
}

abbrev pub IsSession : Session → Type 0
IsSession s = IsStore s.message_store s.window

before_pending-take :
    (p : Pointer) (k window : ℕ) (queue : List SendingPacket)
    → PendingAt p k window (length queue)
    → before_pending p queue ≡ take k queue
before_pending-take null k window queue h = sym (take-all k queue (omega arith))
before_pending-take (at i) k window queue h = rw h.0
before_pending-take freed k window queue h = absurd h

map-send :
    (ps : List SendingPacket) → map (λ p. send p.packet) ps ≡ map (λ e. send e.1) (map entry ps)
map-send [] = refl
map-send (p ∷ ps) = ap (λ r. send p.packet ∷ r) (map-send ps)

-- A session that starts sends again, in their order, the packets that its outbox has sent and that
-- are not yet acknowledged, and none that waits.
pub tmq_session_start-outbox :
    (s : Session)
    → IsSession s
    → (tmq_session_start s).effects
      ≡ s.effects ++ map (λ e. send e.1) (outbox s.message_store s.window).sent
unfolding tmq_session_start
tmq_session_start-outbox s v =
    ap (λ ps. s.effects ++ map (λ p. send p.packet) ps)
      (before_pending-take s.message_store.pending_pointer _ _ _ v.pending)
    ∙ ap (λ es. s.effects ++ es)
        (map-send (take s.window.inflight_packets s.message_store.sending_queue))

act-IsSession : (e : SessionEffect) (s : Session) → IsSession s → IsSession (act e s)
act-IsSession e s v = v

after_acknowledge-IsSession :
    (next : Option SendingPacket) (reports : Bool) (finished : Option (ℕ × ℕ)) (s : Session)
    → IsSession s
    → IsSession (send_next next (report_finish reports finished s))
after_acknowledge-IsSession none true none s v = v
after_acknowledge-IsSession none true (some f) s v = v
after_acknowledge-IsSession none false f s v = v
after_acknowledge-IsSession (some p) true none s v = v
after_acknowledge-IsSession (some p) true (some f) s v = v
after_acknowledge-IsSession (some p) false f s v = v

abbrev pub Keeps : Option Session → Type 0
Keeps r = (s' : Session) × (r ≡ some s') × IsSession s'

acknowledge-IsSession :
    (now id : ℕ) (ack : Acknowledged) (s : Session) → IsSession s → Keeps (acknowledge now id ack s)
unfolding acknowledge
acknowledge-IsSession now id ack s v =
    let (a, (e, store, settled)) =
      memory_store_acknowledge-settle now s.message_store s.window id ack v in
    let s₁ = record s { message_store = a.store; window = a.window } in
    (
      send_next a.next (report_finish s.reports_finish a.finished s₁),
      rw e,
      after_acknowledge-IsSession a.next s.reports_finish a.finished s₁ store,
    )

store_pubrel-IsSession :
    (now id : ℕ) (s : Session) → IsSession s → IsSession (store_pubrel now id s)
unfolding store_pubrel
store_pubrel-IsSession now id s v =
    let fresh : SendingPacket = record { packet_id = id; packet = pubrel id; send_time = 0 } in
    elim (Bool-cases (memory_store_store_message s.message_store s.window fresh).send_now) [
      | inl e ↦
          rw e (memory_store_store_message-IsStore s.message_store s.window (stamped now fresh) v)
      | inr e ↦ rw e (memory_store_store_message-IsStore s.message_store s.window fresh v)
    ]

handle_pubrec-IsSession :
    (now id : ℕ) (s : Session) → IsSession s → Keeps (tmq_session_handle_pubrec now id s)
unfolding tmq_session_handle_pubrec
handle_pubrec-IsSession now id s v =
    let (s', e, v') =
      acknowledge-IsSession now id (ack_publish 2) (record s { last_pkt_ts = now }) v in
    (store_pubrel now id s', rw e, store_pubrel-IsSession now id s' v')

-- A PUBACK, a PUBREC or a PUBCOMP, whatever packet id it has, is handled without a fault by a session
-- whose store meets the invariant, and the invariant holds afterwards.
pub acknowledgements-IsSession :
    (now id : ℕ) (s : Session)
    → IsSession s
    → Keeps (tmq_session_handle_puback now id s)
      × Keeps (tmq_session_handle_pubrec now id s)
      × Keeps (tmq_session_handle_pubcomp now id s)
unfolding tmq_session_handle_puback tmq_session_handle_pubcomp
acknowledgements-IsSession now id s v = (
  acknowledge-IsSession now id (ack_publish 1) (record s { last_pkt_ts = now }) v,
  handle_pubrec-IsSession now id s v,
  acknowledge-IsSession now id ack_pubrel (record s { last_pkt_ts = now }) v,
)

-- What a publication adds to the outbox and to what is sent.
abbrev pub IsPublished : Bool → Bool → PublishPkt → Session → Session → Type 0
IsPublished stored sends p s s' =
    IsSession s'
    × (outbox s'.message_store s'.window ≡ (
        if stored
        then submit s.window.inflight_window_size (p.packet_id, publish p)
            (outbox s.message_store s.window)
        else outbox s.message_store s.window))
    × (s'.effects ≡ s.effects ++ (if sends then send (publish p) ∷ [] else []))
    × (s'.next_packet_id ≡ (if stored then following_id s.next_packet_id else s.next_packet_id))

-- Fewer packets have been sent and not acknowledged than the window holds.
abbrev pub has_room : Session → Bool
has_room s = ltb (length (outbox s.message_store s.window).sent) s.window.inflight_window_size

publish_stored-IsPublished :
    (now : ℕ) (p : PublishPkt) (store_only : Bool) (s : Session)
    → IsSession s
    → IsPublished true (has_room s && not store_only) p s (publish_stored now p store_only s)
unfolding publish_stored
publish_stored-IsPublished now p store_only s v =
    let fresh : SendingPacket = record {
      packet_id = p.packet_id;
      packet = publish p;
      send_time = 0;
    } in
    let store = s.message_store in
    let (kept, room) = outbox-memory_store_store_message store s.window fresh v in
    let (stamp, room') = outbox-memory_store_store_message store s.window (stamped now fresh) v in
    let valid = memory_store_store_message-IsStore store s.window fresh v in
    let valid' = memory_store_store_message-IsStore store s.window (stamped now fresh) v in
    elim (Bool-cases (memory_store_store_message store s.window fresh).send_now) [
      | inl e ↦ elim (Bool-cases store_only) [
        | inl o ↦ rw (← room, e, o) (valid', stamp, sym (append-nil s.effects), refl)
        | inr o ↦ rw (← room, e, o) (valid', stamp, refl, refl)
      ]
      | inr e ↦ rw (← room, e) (valid, kept, sym (append-nil s.effects), refl)
    ]

-- The packet of a publication: the QoS above the retain flag, and the texts up to a zero byte.
abbrev pub published_pkt : ℕ → Str → Str → ℕ → Bool → PublishPkt
published_pkt packet_id topic payload qos retain = record {
  flags = qos * 2 + retain_flag retain;
  topic = c_str topic;
  packet_id = packet_id;
  payload = c_str payload;
}

-- Publishing with a QoS up to 2 through a session whose store meets the invariant keeps it. With
-- QoS 1 or 2 the packet, under the next packet id, is submitted to the outbox, and the id moves on;
-- with QoS 0 the outbox stays as it is. Unless the message is only to be stored, the packet is sent
-- at once with QoS 0, and with QoS 1 or 2 exactly if the window has room; nothing else is sent. The
-- packet has the QoS and the retain flag in its flags, and the texts up to the first zero byte.
pub tmq_session_publish-IsPublished :
    (now : ℕ) (topic payload : Str) (qos : ℕ) (retain store_only : Bool) (s : Session)
    → qos ≤ 2
    → IsSession s
    → IsPublished
        (ltb 0 qos)
        ((not (ltb 0 qos) || has_room s) && not store_only)
        (published_pkt (if ltb 0 qos then s.next_packet_id else 0) topic payload qos retain)
        s
        (tmq_session_publish now topic payload qos retain store_only s)
unfolding tmq_session_publish
tmq_session_publish-IsPublished now topic payload qos retain store_only s le v =
    let flags : (retain_flag retain + qos * 2) % 256 ≡ qos * 2 + retain_flag retain =
      flags_fit retain in
    elim (Bool-cases (ltb 0 qos)) [
      | inl e ↦ rw (e, flags) (publish_stored-IsPublished now _ store_only s v)
      | inr e ↦
          let none_of : retain_flag retain ≡ qos * 2 + retain_flag retain = ground arith in
          elim (Bool-cases store_only) [
            | inl o ↦ rw (e, o) (v, refl, sym (append-nil s.effects), refl)
            | inr o ↦ rw (e, o, ← none_of) (v, refl, refl, refl)
          ]
    ]
  where
    flags_fit : (b : Bool) → (retain_flag b + qos * 2) % 256 ≡ qos * 2 + retain_flag b
    flags_fit true = omega arith
    flags_fit false = omega arith
