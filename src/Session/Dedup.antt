-- ===== src/Session/Dedup.antt =====
-- mqtt/mqtt_session.c: messages with QoS 2 are delivered once in each exchange, however often the
-- client repeats its PUBLISH.
use tiny_mqtt.Prelude.{
  ℕ, ◌≡◌, refl, sym, ◌∙◌, Bool, true, false, not, ◌&&◌, ◌||◌, List, [], ◌∷◌, ◌++◌, ◌==◌,
  if◌then◌else◌, append_assoc, append-nil, arith,
}
use tiny_mqtt.Packet.{PublishPkt, publish_qos, publish_retain}
use tiny_mqtt.Session.{Session, SessionEffect, new_message, has_id, erase_id}
use tiny_mqtt.Session.Receive.{tmq_session_handle_publish, tmq_session_handle_pubrel}

-- What a client sends on the way of its publications.
pub data Received : Type 0 where
  got_publish : PublishPkt → Received
  got_pubrel : ℕ → Received

unfoldable pub receive_all : ℕ → List Received → Session → Session
unfolding tmq_session_handle_publish tmq_session_handle_pubrel
receive_all now [] s = s
receive_all now (got_publish p ∷ es) s = receive_all now es (tmq_session_handle_publish now p s)
receive_all now (got_pubrel id ∷ es) s = receive_all now es (tmq_session_handle_pubrel now id s)

-- Read backwards in time: a PUBLISH with QoS 2 and this packet id, and no PUBREL for it since.
unfoldable pub in_exchange : ℕ → List Received → Bool
in_exchange id [] = false
in_exchange id (got_publish p ∷ earlier) =
    (publish_qos p.flags == 2 && p.packet_id == id) || in_exchange id earlier
in_exchange id (got_pubrel j ∷ earlier) = not (j == id) && in_exchange id earlier

abbrev pub as_message : PublishPkt → SessionEffect
as_message p = new_message p.topic p.payload (publish_qos p.flags) (publish_retain p.flags)

-- The messages that are to be delivered, after what came earlier.
unfoldable pub deliveries : List Received → List Received → List SessionEffect
unfolding in_exchange
deliveries earlier [] = []
deliveries earlier (got_publish p ∷ es) =
    let rest = deliveries (got_publish p ∷ earlier) es in
    if publish_qos p.flags == 2 && in_exchange p.packet_id earlier
    then rest
    else as_message p ∷ rest
deliveries earlier (got_pubrel id ∷ es) = deliveries (got_pubrel id ∷ earlier) es

has_id-erase_id :
    (id j : ℕ) (ids : List ℕ) → has_id j (erase_id id ids) ≡ (not (id == j) && has_id j ids)
unfolding has_id erase_id
has_id-erase_id id j [] = ground arith
has_id-erase_id id j (x ∷ ids) = ground (arith, has_id-erase_id id j ids)

-- The set of packet ids holds those of the open exchanges.
abbrev pub Tracks : Session → List Received → Type 0
Tracks s earlier = (id : ℕ) → has_id id s.qos2_packet_ids ≡ in_exchange id earlier

Tracks-publish :
    (now : ℕ) (p : PublishPkt) (s : Session) (earlier : List Received)
    → Tracks s earlier
    → Tracks (tmq_session_handle_publish now p s) (got_publish p ∷ earlier)
unfolding tmq_session_handle_publish has_id in_exchange
Tracks-publish now p s earlier t id = ground (arith, t id, t p.packet_id)

Tracks-pubrel :
    (now j : ℕ) (s : Session) (earlier : List Received)
    → Tracks s earlier
    → Tracks (tmq_session_handle_pubrel now j s) (got_pubrel j ∷ earlier)
unfolding tmq_session_handle_pubrel has_id in_exchange
Tracks-pubrel now j s earlier t id = ground (arith, t id, has_id-erase_id j id s.qos2_packet_ids)

pubrel-effects : (now j : ℕ) (s : Session) → (tmq_session_handle_pubrel now j s).effects ≡ s.effects
unfolding tmq_session_handle_pubrel
pubrel-effects now j s = refl

-- One PUBLISH: delivered, or discarded.
publish-effects :
    (now : ℕ) (p : PublishPkt) (s : Session) (earlier : List Received)
    → Tracks s earlier
    → (tmq_session_handle_publish now p s).effects
      ≡ s.effects
        ++ (if publish_qos p.flags == 2 && in_exchange p.packet_id earlier
            then []
            else as_message p ∷ [])
unfolding tmq_session_handle_publish
publish-effects now p s earlier t = ground (arith, t p.packet_id, append-nil s.effects)

append-unless :
    {A : Type 0} (b : Bool) (xs ys : List A) (x : A)
    → (xs ++ (if b then [] else x ∷ [])) ++ ys ≡ xs ++ (if b then ys else x ∷ ys)
append-unless true xs ys x = rw (append-nil xs)
append-unless false xs ys x = append_assoc xs (x ∷ []) ys

receive_all-tracked :
    (now : ℕ) (es earlier : List Received) (s : Session)
    → Tracks s earlier
    → (receive_all now es s).effects ≡ s.effects ++ deliveries earlier es
unfolding receive_all deliveries
receive_all-tracked now [] earlier s t = sym (append-nil s.effects)
receive_all-tracked now (got_publish p ∷ es) earlier s t =
    receive_all-tracked now es (got_publish p ∷ earlier) (tmq_session_handle_publish now p s)
      (Tracks-publish now p s earlier t)
    ∙ rw (publish-effects now p s earlier t) (
        append-unless (publish_qos p.flags == 2 && in_exchange p.packet_id earlier) s.effects
          (deliveries (got_publish p ∷ earlier) es) (as_message p))
receive_all-tracked now (got_pubrel j ∷ es) earlier s t =
    receive_all-tracked now es (got_pubrel j ∷ earlier) (tmq_session_handle_pubrel now j s)
      (Tracks-pubrel now j s earlier t)
    ∙ rw (pubrel-effects now j s)

-- A session with no open exchange hands on, of the PUBLISH packets that it gets, exactly those with
-- QoS 0, 1 or 3, and those with QoS 2 that open an exchange: no PUBLISH with the same packet id and
-- QoS 2 came earlier without a PUBREL for it in between.
pub receive_all-deliveries :
    (now : ℕ) (es : List Received) (s : Session)
    → s.qos2_packet_ids ≡ []
    → (receive_all now es s).effects ≡ s.effects ++ deliveries [] es
unfolding has_id in_exchange
receive_all-deliveries now es s e = receive_all-tracked now es [] s (λ id. rw e)
