-- ===== src/Store/Spec.antt =====
-- What a message store promises: what has been sent and not yet acknowledged, at most a window
-- full, and what waits, first come first served.
use tiny_mqtt.Prelude.{ℕ, Option, none, some, List, [], ◌∷◌, ◌++◌, ltb, if◌then◌else◌, length}
use mathlib.Core.Option
use tiny_mqtt.Packet.{AnyPacket}
use tiny_mqtt.Store.{Acknowledged, is_acknowledged}

abbrev pub Entry : Type 0
Entry = ℕ × AnyPacket

pub record Outbox : Type 0 where
  pub sent : List Entry
  pub waiting : List Entry

-- Room in the window: sent at once. Otherwise last in the queue.
unfoldable pub submit : ℕ → Entry → Outbox → Outbox
submit window e o =
    if ltb (length o.sent) window
    then record o { sent = o.sent ++ (e ∷ []) }
    else record o { waiting = o.waiting ++ (e ∷ []) }

-- The entries without the first that is acknowledged, if there is one.
unfoldable pub take_out : ℕ → Acknowledged → List Entry → Option (List Entry)
take_out packet_id ack [] = none
take_out packet_id ack ((id, pkt) ∷ es) =
    if is_acknowledged packet_id ack id pkt
    then some es
    else Option.map (λ r. (id, pkt) ∷ r) (take_out packet_id ack es)

-- The first entry that waits takes the free place.
abbrev pub refill : List Entry → List Entry → Outbox × Option Entry
refill sent [] = (record { sent = sent; waiting = [] }, none)
refill sent (e ∷ es) = (record { sent = sent ++ (e ∷ []); waiting = es }, some e)

-- The new outbox and the entry that is to be sent.
unfoldable pub settle : ℕ → Acknowledged → Outbox → Outbox × Option Entry
settle packet_id ack o = elim (take_out packet_id ack o.sent) [
  | none ↦ (o, none)
  | some sent ↦ refill sent o.waiting
]
