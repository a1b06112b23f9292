-- ===== src/Topic/Subscribe/EndToEnd.antt =====
-- Subscribing, publishing and unsubscribing, one after the other.
use tiny_mqtt.Prelude.{
  ℕ, Str, str_eq, str_eq_refl, ◌≡◌, ◌≢◌, refl, sym, ap, ◌∙◌, Bool, true, false, none, some, List,
  [], ◌∷◌, Option-cases, if◌then◌else◌, All, In, Bool-cases, inl, inr,
}
use mathlib.Core.Path.{subst}
use tiny_mqtt.StrMap.{get}
use tiny_mqtt.Topic.Split.{tmq_topic_split}
use tiny_mqtt.Topic.History.{
  TopicOp, call_all, resubscribes, retains, call_all-subscription, call_all-retain_message,
}
use tiny_mqtt.Topic.Tree.{IsPlain, SubscribeInfo, SubscribeMap, Node, data_at, path_eq}
use tiny_mqtt.Topic.Tree.Laws.{path_eq_iff}
use tiny_mqtt.Topic.Match.{PublishReq, retained_of, tmq_topics_publish}
use tiny_mqtt.Topic.Match.Clients.{clients}
use tiny_mqtt.Topic.Match.Delivery.{
  Matches, HashIsLast, Reached-clients, tmq_topics_publish-clients,
}
use tiny_mqtt.Topic.Match.Written.{data_at-tmq_topics_publish}
use tiny_mqtt.Topic.Retain.Matching.{matching_retained-In}
use tiny_mqtt.Topic.Subscribe.{
  subscriber_map, tmq_topics_add_subscription, tmq_topics_remove_subscription,
}
use tiny_mqtt.Topic.Subscribe.Laws.{
  subscription, subscribe_info, subscription-tmq_topics_add_subscription,
  retain_message-tmq_topics_add_subscription,
}
use tiny_mqtt.Topic.Subscribe.Removal.{tmq_topics_remove_subscription-subscription}

path_eq_refl : (p : List Str) → path_eq p p ≡ true
path_eq_refl p = (path_eq_iff p p).1 refl

-- What a subscription in the tree says of the map at its filter.
map_of_subscription :
    (levels : List Str) (client_id : Str) (t : Node) (info : SubscribeInfo)
    → subscription levels client_id t ≡ some info
    → (s : SubscribeMap) × ((data_at levels t).subscribers ≡ some s) × (get client_id s ≡ some info)
map_of_subscription levels client_id t info e = elim (Option-cases (data_at levels t).subscribers) [
  | inl none_there ↦
      let e' : get client_id [] ≡ some info = rw none_there at e in absurd (unfold get in cc)
  | inr (s, there) ↦ (s, there, rw there at e)
]

-- A client subscribes to a filter, and then any calls are made that do not fault, among them none
-- that subscribes the same client to this filter again, or unsubscribes it from it. Then the client
-- is among the receivers of a publication to a topic without wildcards that the filter matches,
-- with the session that it had and the QoS that it asked for.
pub subscribe_then_publish :
    (json_valid : Str → Bool) (ch : ℕ) (rest client_id : Str) (session qos : ℕ) (root : Node)
    (ops : List TopicOp) (later : Node) (req : PublishReq)
    → All (λ op. resubscribes (tmq_topic_split (ch ∷ rest)) client_id op ≡ false) ops
    → call_all json_valid ops
        (tmq_topics_add_subscription (ch ∷ rest) client_id session qos root).root
      ≡ some later
    → All IsPlain (tmq_topic_split req.topic)
    → Matches (tmq_topic_split (ch ∷ rest)) (tmq_topic_split req.topic)
    → (s : SubscribeMap) × In s (clients (tmq_topics_publish json_valid req later).effects)
      × (get client_id s ≡ some (subscribe_info session qos))
subscribe_then_publish json_valid ch rest client_id session qos root ops later req others run plain
      m =
    let levels = tmq_topic_split (ch ∷ rest) in
    let first = (tmq_topics_add_subscription (ch ∷ rest) client_id session qos root).root in
    let set : subscription levels client_id first ≡ some (subscribe_info session qos) =
      subscription-tmq_topics_add_subscription ch rest client_id session qos root levels client_id
      ∙ rw (path_eq_refl levels, str_eq_refl client_id) refl in
    let kept = call_all-subscription json_valid levels client_id ops first later others run ∙ set in
    let (s, there, found) = map_of_subscription levels client_id later _ kept in
    (s, Reached-clients json_valid req later s plain (levels, m, there), found)

-- A message is published with the retain flag to a topic without wildcards, and then any calls are
-- made that do not fault, among them no publication with the retain flag to this topic. Then a
-- subscriber to a filter that matches the topic gets the message, up to its first zero byte, among
-- the retained messages.
pub retain_then_subscribe :
    (json_valid : Str → Bool) (req : PublishReq) (root : Node) (ops : List TopicOp) (later : Node)
    (ch : ℕ) (rest client_id : Str) (session qos : ℕ)
    → req.retain ≡ true
    → All (λ op. retains (tmq_topic_split req.topic) op ≡ false) ops
    → call_all json_valid ops (tmq_topics_publish json_valid req root).root ≡ some later
    → All IsPlain (tmq_topic_split req.topic)
    → Matches (tmq_topic_split (ch ∷ rest)) (tmq_topic_split req.topic)
    → In
        (retained_of req)
        (tmq_topics_add_subscription (ch ∷ rest) client_id session qos later).retain_messages
unfolding tmq_topics_add_subscription
retain_then_subscribe json_valid req root ops later ch rest client_id session qos flag others run
      plain m =
    let topic = tmq_topic_split req.topic in
    let stored = data_at-tmq_topics_publish json_valid req root topic in
    let first = (tmq_topics_publish json_valid req root).root in
    let kept =
      retain_message-tmq_topics_add_subscription (ch ∷ rest) client_id session qos later topic
      ∙ call_all-retain_message json_valid topic ops first later others run in
    matching_retained-In _ (tmq_topic_split (ch ∷ rest)) topic _ plain m
      (kept ∙ ap (λ x. x.retain_message) stored ∙ rw (path_eq_refl topic, flag))

-- After a client has unsubscribed from the only filter that it was subscribed to, no publication
-- to a topic without wildcards reaches it. (No filter in the tree ends in "#/#".)
pub unsubscribe_then_publish :
    (json_valid : Str → Bool) (filter client_id : Str) (root root' : Node) (s₀ : SubscribeMap)
    (req : PublishReq) (s : SubscribeMap)
    → (data_at (tmq_topic_split filter) root).subscribers ≡ some s₀
    → ((p : List Str) → p ≢ tmq_topic_split filter → subscription p client_id root ≡ none)
    → tmq_topics_remove_subscription filter client_id root ≡ some root'
    → HashIsLast root'
    → All IsPlain (tmq_topic_split req.topic)
    → In s (clients (tmq_topics_publish json_valid req root').effects)
    → get client_id s ≡ none
unsubscribe_then_publish json_valid filter client_id root root' s₀ req s there only removed wf plain
      i =
    let (r, e, gone, kept) =
      tmq_topics_remove_subscription-subscription filter client_id root s₀ there in
    let (f, m, h) = (tmq_topics_publish-clients json_valid req root' s plain wf).0 i in
    let same : r ≡ root' = some_eq (sym e ∙ removed) in
    let here : subscription f client_id root' ≡ get client_id s =
      ap (λ x. get client_id (subscriber_map x)) h in
    sym here ∙ subst (λ x. subscription f client_id x ≡ none) same (gone f client_id ∙ none_left f)
  where
    some_eq : {x y : Node} → some x ≡ some y → x ≡ y
    some_eq p = cc

    none_left :
        (f : List Str)
        → (if path_eq (tmq_topic_split filter) f
            then (if str_eq client_id client_id then none else subscription f client_id root)
            else subscription f client_id root)
          ≡ none
    none_left f = elim (Bool-cases (path_eq (tmq_topic_split filter) f)) [
      | inl e ↦ rw (e, str_eq_refl client_id)
      | inr e ↦ rw e (only f (λ q. cc ((path_eq_iff (tmq_topic_split filter) f).1 (sym q), e)))
    ]
