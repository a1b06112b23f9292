-- ===== src/Packet.antt =====
-- mqtt/mqtt_packet.h: the packets of MQTT 3.1.1, and the macros that read their flags.
use tiny_mqtt.Prelude.{ℕ, ◌/◌, ◌%◌, Str, List}

pub record ConnectPkt : Type 0 where
  pub flags : ℕ
  pub keep_alive : ℕ
  pub client_id : Str
  pub will_topic : Str
  pub will_message : Str
  pub username : Str
  pub password : Str

pub record ConnackPkt : Type 0 where
  pub ack_flags : ℕ
  pub return_code : ℕ

-- `packet_id` counts for QoS 1 and 2 only.
pub record PublishPkt : Type 0 where
  pub flags : ℕ
  pub topic : Str
  pub packet_id : ℕ
  pub payload : Str

pub record TopicFilterQos : Type 0 where
  pub topic_filter : Str
  pub qos : ℕ

pub record SubscribePkt : Type 0 where
  pub packet_id : ℕ
  pub topics : List TopicFilterQos

pub record SubackPkt : Type 0 where
  pub packet_id : ℕ
  pub return_codes : List ℕ

pub record UnsubscribePkt : Type 0 where
  pub packet_id : ℕ
  pub topics : List Str

-- `tmq_any_packet_t`, and the 14 packet types; the acknowledgements carry their packet id.
pub data AnyPacket : Type 0 where
  connect : ConnectPkt → AnyPacket
  connack : ConnackPkt → AnyPacket
  publish : PublishPkt → AnyPacket
  puback : ℕ → AnyPacket
  pubrec : ℕ → AnyPacket
  pubrel : ℕ → AnyPacket
  pubcomp : ℕ → AnyPacket
  subscribe : SubscribePkt → AnyPacket
  suback : SubackPkt → AnyPacket
  unsubscribe : UnsubscribePkt → AnyPacket
  unsuback : ℕ → AnyPacket
  pingreq : AnyPacket
  pingresp : AnyPacket
  disconnect : AnyPacket

-- `((flags) >> 1) & 0x03`
abbrev pub publish_qos : ℕ → ℕ
publish_qos flags = flags / 2 % 4

-- `(flags) & 0x01`
abbrev pub publish_retain : ℕ → ℕ
publish_retain flags = flags % 2
