-- ===== src/Broker/Suback.antt =====
-- The answer to a SUBSCRIBE packet.
use tiny_mqtt.Prelude.{
  ℕ, ◌≡◌, refl, sym, ap, ◌∙◌, Bool, true, false, Option, some, List, [], ◌∷◌, ◌++◌, append-nil,
  append_assoc, Str, Bool-cases, Option-cases, inl, inr, if◌then◌else◌, In, In-append_right, map,
}
use tiny_mqtt.HashMap.Chain.{some_injective, none-ne-some}
use tiny_mqtt.Codec.Read.{bind_some}
use tiny_mqtt.Packet.{TopicFilterQos, SubscribePkt, suback}
use tiny_mqtt.Topic.Subscribe.{tmq_topics_add_subscription}
use tiny_mqtt.Acl.{sub_access}
use tiny_mqtt.Broker.Topics.{
  denied, Granted, add_route, subscribe_all, retained_task, subscribe_req, topic_subscribe,
  open_session, handle_topic_req,
}
use tiny_mqtt.Broker.{Broker, Env, send_packet}

-- The QoS of every filter that the access control list does not deny to the session.
unfoldable pub granted_qos : Env → ℕ → List TopicFilterQos → Broker → List ℕ
granted_qos env id [] b = []
granted_qos env id (tf ∷ rest) b =
    let later = granted_qos env id rest b in
    if denied env sub_access tf.topic_filter (b.heap id) b then later else tf.qos ∷ later

-- The parts of the broker that decide on a denial.
abbrev IsSameJudge : Broker → Broker → Type 0
IsSameJudge b b' = (b'.acl_enabled ≡ b.acl_enabled) × (b'.acl ≡ b.acl) × (b'.heap ≡ b.heap)

add_route-IsSameJudge :
    (filter : Str) (exist : Option Bool) (b b' : Broker)
    → add_route filter exist b ≡ some b'
    → IsSameJudge b b'
add_route-IsSameJudge filter exist b b' e = elim (Bool-cases b.cluster_enabled) [
  | inl p ↦ elim (Option-cases exist) [
    | inl q ↦ absurd (none-ne-some (rw (add_route, p, q) at e))
    | inr (true, q) ↦
        let k = some_injective (rw (add_route, p, q) at e) in rw (← k) (refl, refl, refl)
    | inr (false, q) ↦
        let k = some_injective (rw (add_route, p, q) at e) in rw (← k) (refl, refl, refl)
  ]
  | inr p ↦ let k = some_injective (rw (add_route, p) at e) in rw (← k) (refl, refl, refl)
]

denied-IsSameJudge :
    (env : Env) (id : ℕ) (topic : Str) (b b' : Broker)
    → IsSameJudge b b'
    → denied env sub_access topic (b'.heap id) b' ≡ denied env sub_access topic (b.heap id) b
denied-IsSameJudge env id topic b b' (e₁, e₂, e₃) = rw (e₁, e₂, e₃) refl

granted_qos-IsSameJudge :
    (env : Env) (id : ℕ) (tfs : List TopicFilterQos) (b b' : Broker)
    → IsSameJudge b b'
    → granted_qos env id tfs b' ≡ granted_qos env id tfs b
unfolding granted_qos
granted_qos-IsSameJudge env id [] b b' j = refl
granted_qos-IsSameJudge env id (tf ∷ rest) b b' j =
    let k = granted_qos-IsSameJudge env id rest b b' j in
    let k₂ = denied-IsSameJudge env id tf.topic_filter b b' j in
    ap (λ d. if d then granted_qos env id rest b' else tf.qos ∷ granted_qos env id rest b') k₂
    ∙ ap (λ l. if denied env sub_access tf.topic_filter (b.heap id) b then l else tf.qos ∷ l) k

subscribe_all-granted_qos :
    (env : Env) (id : ℕ) (client_id : Str) (tfs : List TopicFilterQos) (g g' : Granted)
    → subscribe_all env id client_id tfs g ≡ some g'
    → g'.return_codes ≡ g.return_codes ++ granted_qos env id tfs g.broker
unfolding subscribe_all granted_qos
subscribe_all-granted_qos env id client_id [] g g' e =
    ap (λ z. z.return_codes) (sym (some_injective e)) ∙ sym (append-nil g.return_codes)
subscribe_all-granted_qos env id client_id (tf ∷ rest) g g' e =
    let b = g.broker in
    let d = denied env sub_access tf.topic_filter (b.heap id) b in
    let later = granted_qos env id rest b in
    elim (Bool-cases d) [
      | inl p ↦
          subscribe_all-granted_qos env id client_id rest g g' (rw (subscribe_all, p) at e)
          ∙ ap (λ z. g.return_codes ++ (if z then later else tf.qos ∷ later)) (sym p)
      | inr p ↦
          let s = tmq_topics_add_subscription tf.topic_filter client_id id tf.qos b.topics_tree in
          let next = λ (b₁ : Broker). subscribe_all env id client_id rest (record {
            broker = b₁;
            return_codes = g.return_codes ++ (tf.qos ∷ []);
            all_retain = g.all_retain ++ s.retain_messages;
          }) in
          let (b₁, r, k) =
            bind_some (add_route tf.topic_filter s.topic_exist (record b { topics_tree = s.root }))
              next g' (rw (subscribe_all, p) at e) in
          let judge = add_route-IsSameJudge tf.topic_filter s.topic_exist _ b₁ r in
          subscribe_all-granted_qos env id client_id rest _ g' k
          ∙ append_assoc g.return_codes (tf.qos ∷ []) (granted_qos env id rest b₁)
          ∙ ap (λ z. g.return_codes ++ (tf.qos ∷ z))
              (granted_qos-IsSameJudge env id rest b b₁ judge)
          ∙ ap (λ z. g.return_codes ++ (if z then later else tf.qos ∷ later)) (sym p)
    ]

-- A SUBSCRIBE packet of a client with an open session, if it is handled, is answered by a SUBACK
-- with its packet id and the QoS of every filter that is not denied, in order: a filter that the
-- access control list denies has no return code at all.
pub handle_topic_req-suback :
    (env : Env) (id : ℕ) (client_id : Str) (pkt : SubscribePkt) (b b' : Broker)
    → open_session client_id b ≡ some id
    → handle_topic_req env (topic_subscribe client_id pkt) b ≡ some b'
    → In
        (send_packet id (
          suback
            (record { packet_id = pkt.packet_id; return_codes = granted_qos env id pkt.topics b })))
        b'.effects
unfolding handle_topic_req subscribe_req
handle_topic_req-suback env id client_id pkt b b' o e =
    let next = λ (g : Granted). some (record (g.broker) {
      effects =
          g.broker.effects
          ++ (send_packet id
                (suback (record { packet_id = pkt.packet_id; return_codes = g.return_codes }))
              ∷ map (λ r. retained_task env id g.broker r) g.all_retain);
    }) in
    let start : Granted = record { broker = b; return_codes = []; all_retain = [] } in
    let (g, r, k) =
      bind_some (subscribe_all env id client_id pkt.topics start) next b'
        (rw (handle_topic_req, o) at e) in
    let codes = subscribe_all-granted_qos env id client_id pkt.topics start g r in
    let k₂ = some_injective k in
    rw (← k₂, ← codes) (In-append_right _ g.broker.effects _ (inl refl))
