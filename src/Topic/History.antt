-- ===== src/Topic/History.antt =====
-- Any sequence of calls of mqtt_topic.c, and what it leaves as it is.
use tiny_mqtt.Prelude.{
  ℕ, Str, str_eq, ◌≡◌, refl, ◌∙◌, Bool, false, ◌&&◌, Option, some, List, [], ◌∷◌, All, arith, inl,
  inr, Bool-cases,
}
use tiny_mqtt.Codec.Read.{◌>>=◌, bind_some}
use tiny_mqtt.StrMap.{get, get-erase, erase}
use tiny_mqtt.Topic.Split.{tmq_topic_split}
use tiny_mqtt.Topic.Tree.{EventListener, NodeData, Node, update_topic, data_at, path_eq}
use tiny_mqtt.Topic.Tree.Laws.{data_at-update_topic}
use tiny_mqtt.Topic.Match.{PublishReq, tmq_topics_publish}
use tiny_mqtt.Topic.Match.Written.{data_at-tmq_topics_publish}
use tiny_mqtt.Topic.Subscribe.{
  subscriber_map, remove_subscriber, tmq_topics_add_subscription, tmq_topics_add_listener,
  tmq_topics_add_route, tmq_topics_remove_subscription,
}
use tiny_mqtt.Topic.Subscribe.Laws.{
  subscription, subscription-tmq_topics_add_subscription,
  retain_message-tmq_topics_add_subscription,
}
use tiny_mqtt.Topic.Subscribe.Removal.{remove-cases, data_at-update_and_remove, get-drop_if_empty}

-- The calls with their arguments.
pub data TopicOp : Type 0 where
  add_subscription : Str → Str → ℕ → ℕ → TopicOp
  remove_subscription : Str → Str → TopicOp
  publish_req : PublishReq → TopicOp
  add_listener : Str → EventListener → TopicOp
  add_route : Str → Str → TopicOp

unfoldable pub call : (Str → Bool) → TopicOp → Node → Option Node
call json_valid (add_subscription filter client_id session qos) t =
    some (tmq_topics_add_subscription filter client_id session qos t).root
call json_valid (remove_subscription filter client_id) t =
    tmq_topics_remove_subscription filter client_id t
call json_valid (publish_req req) t = some (tmq_topics_publish json_valid req t).root
call json_valid (add_listener filter listener) t = some (tmq_topics_add_listener filter listener t)
call json_valid (add_route filter addr) t = some (tmq_topics_add_route filter addr t)

unfoldable pub call_all : (Str → Bool) → List TopicOp → Node → Option Node
call_all json_valid [] t = some t
call_all json_valid (op ∷ ops) t = call json_valid op t >>= call_all json_valid ops

-- Whether a call sets or removes the subscription of this client to this filter.
abbrev pub resubscribes : List Str → Str → TopicOp → Bool
resubscribes levels client_id (add_subscription filter other session qos) =
    path_eq (tmq_topic_split filter) levels && str_eq other client_id
resubscribes levels client_id (remove_subscription filter other) =
    path_eq (tmq_topic_split filter) levels && str_eq other client_id
resubscribes levels client_id op = false

-- Whether a call stores a retained message for this topic.
abbrev pub retains : List Str → TopicOp → Bool
retains levels (publish_req req) = req.retain && path_eq (tmq_topic_split req.topic) levels
retains levels op = false

-- A write shows in no field that it keeps.
write_keeps {ℓ} :
    {A : Type ℓ} (g : NodeData → A) (f : NodeData → NodeData) (q p : List Str) (t : Node)
    → ((d : NodeData) → g (f d) ≡ g d)
    → g (data_at p (update_topic f q t)) ≡ g (data_at p t)
write_keeps g f q p t same = elim (Bool-cases (path_eq q p)) [
  | inl e ↦ rw (data_at-update_topic f q p t, e) (same (data_at p t))
  | inr e ↦ rw (data_at-update_topic f q p t, e) refl
]

call-subscription :
    (json_valid : Str → Bool) (levels : List Str) (client_id : Str) (op : TopicOp) (t u : Node)
    → resubscribes levels client_id op ≡ false
    → call json_valid op t ≡ some u
    → subscription levels client_id u ≡ subscription levels client_id t
unfolding call tmq_topics_add_listener tmq_topics_add_route
call-subscription jv levels client_id (add_subscription [] other session qos) t u n e =
    let same : t ≡ u = unfold tmq_topics_add_subscription in cc in rw (same) refl
call-subscription jv levels client_id (add_subscription (ch ∷ rest) other session qos) t u n e =
    let same : (tmq_topics_add_subscription (ch ∷ rest) other session qos t).root ≡ u = cc in
    rw (← same) (
      ground (
        arith,
        subscription-tmq_topics_add_subscription ch rest other session qos t levels client_id,
      ))
call-subscription jv levels client_id (remove_subscription filter other) t u n e =
    elim (remove-cases filter other t u e) [
      | inl same ↦ rw (same) refl
      | inr (m, at, done) ↦ rw (← done) (
          ground (
            arith,
            data_at-update_and_remove (λ x. x.subscribers) (λ x e₁ e₂. e₁) (remove_subscriber other)
                (tmq_topic_split filter) levels t m at,
            get-drop_if_empty client_id
                (erase other (subscriber_map (data_at levels t).subscribers)),
            get-erase other client_id (subscriber_map (data_at levels t).subscribers),
          ))
    ]
call-subscription jv levels client_id (publish_req req) t u n e =
    let same : (tmq_topics_publish jv req t).root ≡ u = cc in
    rw (← same) (ground (arith, data_at-tmq_topics_publish jv req t levels))
call-subscription jv levels client_id (add_listener filter listener) t u n e =
    let same : tmq_topics_add_listener filter listener t ≡ u = cc in
    rw (← same) (
      write_keeps (λ d. get client_id (subscriber_map d.subscribers))
        (λ d. record d { listeners = listener ∷ d.listeners }) (tmq_topic_split filter) levels t
        (λ d. refl))
call-subscription jv levels client_id (add_route filter addr) t u n e =
    let same : tmq_topics_add_route filter addr t ≡ u = cc in
    rw (← same) (
      write_keeps (λ d. get client_id (subscriber_map d.subscribers))
        (λ d. record d { subscribe_members = addr ∷ d.subscribe_members }) (tmq_topic_split filter)
        levels t (λ d. refl))

call-retain_message :
    (json_valid : Str → Bool) (levels : List Str) (op : TopicOp) (t u : Node)
    → retains levels op ≡ false
    → call json_valid op t ≡ some u
    → (data_at levels u).retain_message ≡ (data_at levels t).retain_message
unfolding call tmq_topics_add_listener tmq_topics_add_route
call-retain_message jv levels (add_subscription filter other session qos) t u n e =
    let same : (tmq_topics_add_subscription filter other session qos t).root ≡ u = cc in
    rw (← same) (retain_message-tmq_topics_add_subscription filter other session qos t levels)
call-retain_message jv levels (remove_subscription filter other) t u n e =
    elim (remove-cases filter other t u e) [
      | inl same ↦ rw (same) refl
      | inr (m, at, done) ↦ rw (← done) (
          ground (
            arith,
            data_at-update_and_remove (λ x. x.retain_message) (λ x e₁ e₂. e₂)
                (remove_subscriber other) (tmq_topic_split filter) levels t m at,
          ))
    ]
call-retain_message jv levels (publish_req req) t u n e =
    let same : (tmq_topics_publish jv req t).root ≡ u = cc in
    rw (← same) (ground (arith, data_at-tmq_topics_publish jv req t levels))
call-retain_message jv levels (add_listener filter listener) t u n e =
    let same : tmq_topics_add_listener filter listener t ≡ u = cc in
    rw (← same) (
      write_keeps (λ d. d.retain_message) (λ d. record d { listeners = listener ∷ d.listeners })
        (tmq_topic_split filter) levels t (λ d. refl))
call-retain_message jv levels (add_route filter addr) t u n e =
    let same : tmq_topics_add_route filter addr t ≡ u = cc in
    rw (← same) (
      write_keeps (λ d. d.retain_message)
        (λ d. record d { subscribe_members = addr ∷ d.subscribe_members }) (tmq_topic_split filter)
        levels t (λ d. refl))

-- What each call keeps, all of them keep.
call_all-keeps {ℓ} :
    {A : Type ℓ} (json_valid : Str → Bool) (g : Node → A) (touches : TopicOp → Bool)
    → ((op : TopicOp) (t u : Node) → touches op ≡ false → call json_valid op t ≡ some u → g u ≡ g t)
    → (ops : List TopicOp) (t u : Node) → All (λ op. touches op ≡ false) ops
    → call_all json_valid ops t ≡ some u
    → g u ≡ g t
unfolding call_all
call_all-keeps jv g touches keeps [] t u all e = let same : t ≡ u = cc in rw (same) refl
call_all-keeps jv g touches keeps (op ∷ ops) t u all e =
    let (v, first, rest) = bind_some (call jv op t) (call_all jv ops) u e in
    call_all-keeps jv g touches keeps ops v u all.1 rest ∙ keeps op t v all.0 first

pub call_all-subscription :
    (json_valid : Str → Bool) (levels : List Str) (client_id : Str) (ops : List TopicOp)
    (t u : Node)
    → All (λ op. resubscribes levels client_id op ≡ false) ops
    → call_all json_valid ops t ≡ some u
    → subscription levels client_id u ≡ subscription levels client_id t
call_all-subscription jv levels client_id =
    call_all-keeps jv (subscription levels client_id) (resubscribes levels client_id)
      (call-subscription jv levels client_id)

pub call_all-retain_message :
    (json_valid : Str → Bool) (levels : List Str) (ops : List TopicOp) (t u : Node)
    → All (λ op. retains levels op ≡ false) ops
    → call_all json_valid ops t ≡ some u
    → (data_at levels u).retain_message ≡ (data_at levels t).retain_message
call_all-retain_message jv levels =
    call_all-keeps jv (λ n. (data_at levels n).retain_message) (retains levels)
      (call-retain_message jv levels)
