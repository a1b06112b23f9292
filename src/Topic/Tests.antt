-- ===== src/Topic/Tests.antt =====
-- Runs of the topic tree, and its theorems at concrete inputs.
use tiny_mqtt.Prelude.{
  Str, str_eq, str_eq_iff, bytes, ◌≡◌, ◌≢◌, refl, Bool, true, false, none, some, Option, List, [],
  ◌∷◌, if◌then◌else◌, All, In, arith, inl, inr, ◌↔◌,
}
use tiny_mqtt.StrMap.{get, put, erase}
use tiny_mqtt.Topic.Split.{tmq_topic_split, tmq_topic_split-join}
use tiny_mqtt.Topic.Tree.{
  IsPlain, plus, hash, SubscribeMap, EventListener, NodeData, Node, topic_tree_node_new, child,
  put_child, erase_child, find_or_create, update_topic, find_topic, data_at, path_eq, empty_data,
}
use tiny_mqtt.Topic.Tree.Laws.{data_at-new, path_eq_iff}
use tiny_mqtt.Topic.History.{
  TopicOp, add_subscription, remove_subscription, publish_req, add_listener, call, call_all,
  resubscribes, retains,
}
use tiny_mqtt.Topic.Match.{
  retained_of, PublishReq, client_on_match, match, match_child, match_level, notify_node,
  notify_child, tmq_topics_publish,
}
use tiny_mqtt.Topic.Match.Clients.{clients}
use tiny_mqtt.Topic.Match.Delivery.{Matches, Reached, tmq_topics_publish-clients}
use tiny_mqtt.Topic.Retain.{matching_retained}
use tiny_mqtt.Topic.Retain.Found.{IsFilter, RetainedIn}
use tiny_mqtt.Topic.Retain.Matching.{In-matching_retained}
use tiny_mqtt.Topic.Subscribe.{
  tmq_topics_add_subscription, tmq_topics_add_listener, tmq_topics_remove_subscription,
  update_and_remove, remove_subscriber, subscriber_map,
}
use tiny_mqtt.Topic.Subscribe.Laws.{
  subscription, subscribe_info, subscription-tmq_topics_add_subscription,
}
use tiny_mqtt.Topic.Subscribe.Removal.{tmq_topics_remove_subscription-subscription}
use tiny_mqtt.Topic.Subscribe.Faults.{
  tmq_topics_remove_subscription-fault, tmq_topics_remove_subscription-drops_node,
}
use tiny_mqtt.Topic.Subscribe.EndToEnd.{
  subscribe_then_publish, retain_then_subscribe, unsubscribe_then_publish,
}
use tiny_mqtt.Topic.Reach.{
  Reach, init, next, subscribe, unsubscribe, publish, IsTopicTree, Reach-IsTopicTree,
}

abbrev no_json : Str → Bool
no_json s = false

-- "a", client "c", the filter "a/+" and the topic "a/b".
abbrev a : Str
a = bytes "a"

abbrev b : Str
b = bytes "b"

abbrev c : Str
c = bytes "c"

abbrev a_plus : Str
a_plus = bytes "a/+"

abbrev a_b : Str
a_b = bytes "a/b"

split_lead : tmq_topic_split (bytes "/a/b") ≡ [] ∷ a ∷ b ∷ []
unfolding tmq_topic_split
split_lead = refl

split_trail : tmq_topic_split (bytes "a/") ≡ a ∷ [] ∷ []
unfolding tmq_topic_split
split_trail = refl

split_a_b : tmq_topic_split a_b ≡ a ∷ b ∷ []
unfolding tmq_topic_split
split_a_b = refl

split_a_plus : tmq_topic_split a_plus ≡ a ∷ plus ∷ []
unfolding tmq_topic_split
split_a_plus = refl

tmq_topic_split-join_example : tmq_topic_split (bytes "a//b") ≡ a ∷ [] ∷ b ∷ []
tmq_topic_split-join_example =
    tmq_topic_split-join a ([] ∷ b ∷ []) (refl, tt) (tt, ((refl, tt), tt))

abbrev request : PublishReq
request = record {
  topic = a_b;
  message = record { message = bytes "hi"; qos = 1 };
  retain = true;
  publisher_username = [];
  publisher_client_id = bytes "p";
  is_tunneled_pub = false;
}

subscribed : Node
subscribed = (tmq_topics_add_subscription a_plus c 7 1 topic_tree_node_new).root

a_plus-IsFilter : IsFilter (tmq_topic_split a_plus)
unfolding tmq_topic_split
a_plus-IsFilter = (λ e. absurd (ne e), ((λ e. refl), tt))
  where
    ne : a ≢ hash
    ne e = let f : str_eq a hash ≡ true = (str_eq_iff a hash).1 e in unfold str_eq in cc

subscribed-Reach : Reach no_json subscribed
unfolding subscribed
subscribed-Reach = next init (subscribe a_plus c 7 1 topic_tree_node_new a_plus-IsFilter)

subscribed-IsTopicTree : IsTopicTree subscribed
subscribed-IsTopicTree = Reach-IsTopicTree subscribed-Reach

plain_of : (s t : Str) → str_eq s t ≡ false → s ≢ t
plain_of s t h e = cc ((str_eq_iff s t).1 e)

a_b-IsPlain : All IsPlain (tmq_topic_split a_b)
unfolding tmq_topic_split str_eq
a_b-IsPlain = (
  (plain_of a plus refl, plain_of a hash refl),
  ((plain_of b plus refl, plain_of b hash refl), tt),
)

a_plus-Matches : Matches (tmq_topic_split a_plus) (tmq_topic_split a_b)
unfolding tmq_topic_split
a_plus-Matches = inl (inl refl, inl (inr refl, tt))

abbrev seven : SubscribeMap
seven = (c, record { session = 7; qos = 1; is_session_closed = false }) ∷ []

delivers :
    (tmq_topics_publish no_json request subscribed).effects
    ≡ client_on_match a_b (record { message = bytes "hi"; qos = 1 }) seven ∷ []
unfolding tmq_topics_publish match notify_node notify_child match_child match_level subscribed
    tmq_topics_add_subscription update_topic find_or_create child put_child tmq_topic_split put
    str_eq
delivers = refl

tmq_topics_publish-clients_example :
    In seven (clients (tmq_topics_publish no_json request subscribed).effects)
    ↔ Reached (tmq_topic_split a_b) seven subscribed
tmq_topics_publish-clients_example =
    tmq_topics_publish-clients no_json request subscribed seven a_b-IsPlain
      subscribed-IsTopicTree.hash_is_last

subscription-tmq_topics_add_subscription_example :
    subscription (a ∷ plus ∷ []) c (tmq_topics_add_subscription a_plus c 9 2 subscribed).root
    ≡ some (subscribe_info 9 2)
unfolding path_eq str_eq tmq_topic_split
subscription-tmq_topics_add_subscription_example =
    subscription-tmq_topics_add_subscription b'a' (bytes "/+") c 9 2 subscribed (a ∷ plus ∷ []) c

In-matching_retained_example :
    In (retained_of request) (
      matching_retained
        (tmq_topic_split a_plus)
        (tmq_topics_publish no_json request subscribed).root)
    ↔ RetainedIn
        (Matches (tmq_topic_split a_plus))
        (retained_of request)
        (tmq_topics_publish no_json request subscribed).root
In-matching_retained_example =
    In-matching_retained _ (tmq_topic_split a_plus)
      (tmq_topics_publish no_json request subscribed).root a_plus-IsFilter
      (Reach-IsTopicTree (next subscribed-Reach (publish request subscribed))).distinct

seven_at : (data_at (tmq_topic_split a_plus) subscribed).subscribers ≡ some seven
unfolding subscribed tmq_topics_add_subscription update_topic find_or_create child put_child
    tmq_topic_split put str_eq data_at
seven_at = refl

tmq_topics_remove_subscription-subscription_example :
    (root' : Node) × (tmq_topics_remove_subscription a_plus c subscribed ≡ some root')
    × ((p : List Str) (other : Str)
        → subscription p other root' ≡ (
            if path_eq (tmq_topic_split a_plus) p
            then (if str_eq c other then none else subscription p other subscribed)
            else subscription p other subscribed))
    × ((p : List Str) → (data_at p root').retain_message ≡ (data_at p subscribed).retain_message)
tmq_topics_remove_subscription-subscription_example =
    tmq_topics_remove_subscription-subscription a_plus c subscribed seven seven_at

tmq_topics_remove_subscription-fault_example :
    tmq_topics_remove_subscription a c
      (tmq_topics_add_subscription a_plus c 7 1 topic_tree_node_new).root
    ≡ none
unfolding tmq_topic_split data_at child
tmq_topics_remove_subscription-fault_example =
    tmq_topics_remove_subscription-fault a c b'a' (bytes "/+") c 7 1 plus [] topic_tree_node_new
      refl refl

abbrev rule : EventListener
rule = record { listener_id = 1; need_json_payload = false }

abbrev watched : NodeData
watched = record {
  subscribers = some seven;
  listeners = rule ∷ [];
  subscribe_members = [];
  retain_message = none;
}

-- The rule of the filter is gone with its last subscriber.
tmq_topics_remove_subscription-drops_node_example :
    (root' : Node) × (tmq_topics_remove_subscription a_plus c
        (tmq_topics_add_listener a_plus rule subscribed)
      ≡ some root')
    × (data_at (tmq_topic_split a_plus) root' ≡ empty_data)
unfolding subscribed tmq_topics_add_subscription tmq_topics_add_listener update_topic find_or_create
    child put_child tmq_topic_split put str_eq find_topic
tmq_topics_remove_subscription-drops_node_example =
    tmq_topics_remove_subscription-drops_node a_plus c (subscribe_info 7 1)
      (tmq_topics_add_listener a_plus rule subscribed) watched refl refl refl

-- Another client subscribes and unsubscribes, a rule listens, and another topic gets a message.
abbrev other_request : PublishReq
other_request = record request { topic = bytes "b" }

abbrev other_ops : List TopicOp
other_ops =
    add_subscription a_plus b 8 0
    ∷ add_listener a_b rule
    ∷ publish_req other_request
    ∷ remove_subscription a_plus b
    ∷ []

other_ops-resubscribes : All (λ op. resubscribes (tmq_topic_split a_plus) c op ≡ false) other_ops
unfolding tmq_topic_split path_eq str_eq
other_ops-resubscribes = (refl, (refl, (refl, (refl, tt))))

other_ops-retains : All (λ op. retains (tmq_topic_split a_b) op ≡ false) other_ops
unfolding tmq_topic_split path_eq str_eq
other_ops-retains = (refl, (refl, (refl, (refl, tt))))

abbrev after_others : Option Node → Node
after_others (some t) = t
after_others none = topic_tree_node_new

abbrev first_tree : Node
first_tree = (tmq_topics_add_subscription a_plus c 7 1 topic_tree_node_new).root

abbrev retained_tree : Node
retained_tree = (tmq_topics_publish no_json request topic_tree_node_new).root

first_tree-call_all :
    call_all no_json other_ops first_tree
    ≡ some (after_others (call_all no_json other_ops first_tree))
unfolding call_all call tmq_topics_add_subscription update_topic find_or_create child put_child
    tmq_topic_split put str_eq tmq_topics_add_listener tmq_topics_publish match notify_node
    notify_child match_child match_level tmq_topics_remove_subscription find_topic update_and_remove
    erase erase_child
first_tree-call_all = refl

retained_tree-call_all :
    call_all no_json other_ops retained_tree
    ≡ some (after_others (call_all no_json other_ops retained_tree))
unfolding call_all call tmq_topics_add_subscription update_topic find_or_create child put_child
    tmq_topic_split put str_eq tmq_topics_add_listener tmq_topics_publish match notify_node
    notify_child match_child match_level tmq_topics_remove_subscription find_topic update_and_remove
    erase erase_child
retained_tree-call_all = refl

subscribe_then_publish_example :
    let later = after_others (call_all no_json other_ops first_tree) in
    (s : SubscribeMap) × In s (clients (tmq_topics_publish no_json request later).effects)
    × (get c s ≡ some (subscribe_info 7 1))
subscribe_then_publish_example =
    subscribe_then_publish no_json b'a' (bytes "/+") c 7 1 topic_tree_node_new other_ops
      (after_others (call_all no_json other_ops first_tree)) request other_ops-resubscribes
      first_tree-call_all a_b-IsPlain a_plus-Matches

retain_then_subscribe_example :
    In
      (retained_of request)
      (tmq_topics_add_subscription a_plus c 7 1
        (after_others (call_all no_json other_ops retained_tree))).retain_messages
retain_then_subscribe_example =
    retain_then_subscribe no_json request topic_tree_node_new other_ops
      (after_others (call_all no_json other_ops retained_tree)) b'a' (bytes "/+") c 7 1 refl
      other_ops-retains retained_tree-call_all a_b-IsPlain a_plus-Matches

-- The filter "#" gets what is published to "$SYS".
abbrev sys_request : PublishReq
sys_request = record request { topic = bytes "$SYS/x" }

sys_delivered :
    clients
      (tmq_topics_publish no_json sys_request
        (tmq_topics_add_subscription hash c 7 1 topic_tree_node_new).root).effects
    ≡ seven ∷ []
unfolding tmq_topics_publish match notify_node notify_child match_child match_level clients
    tmq_topics_add_subscription update_topic find_or_create child put_child tmq_topic_split put
    str_eq
sys_delivered = refl

-- A second client, `b`, subscribes to "a/b" itself.
both : Node
unfolding subscribed
both = (tmq_topics_add_subscription a_b b 8 0 subscribed).root

a_b-IsFilter : IsFilter (tmq_topic_split a_b)
unfolding tmq_topic_split str_eq
a_b-IsFilter = (λ e. absurd (plain_of a hash refl e), ((λ e. refl), tt))

both_left : Node
unfolding both
both_left = update_and_remove (remove_subscriber c) (tmq_topic_split a_plus) both

removed : tmq_topics_remove_subscription a_plus c both ≡ some both_left
unfolding both both_left tmq_topics_remove_subscription tmq_topics_add_subscription update_topic
    find_or_create child put_child tmq_topic_split put str_eq find_topic
removed = refl

both_left-Reach : Reach no_json both_left
unfolding both subscribed
both_left-Reach =
    next (next subscribed-Reach (subscribe a_b b 8 0 subscribed a_b-IsFilter))
      (unsubscribe a_plus c removed)

abbrev eight : SubscribeMap
eight = (b, record { session = 8; qos = 0; is_session_closed = false }) ∷ []

get_nil : get c (subscriber_map none) ≡ none
unfolding get
get_nil = refl

b-ne-c : str_eq b c ≡ false
unfolding str_eq
b-ne-c = refl

only_here : (p : List Str) → p ≢ tmq_topic_split a_plus → subscription p c both ≡ none
unfolding both subscribed
only_here p ne = ground (
  arith,
  subscription-tmq_topics_add_subscription b'a' (bytes "/b") b 8 0
      (tmq_topics_add_subscription a_plus c 7 1 topic_tree_node_new).root p c,
  subscription-tmq_topics_add_subscription b'a' (bytes "/+") c 7 1 topic_tree_node_new p c,
  path_eq_iff (tmq_topic_split a_plus) p,
  b-ne-c,
  data_at-new p,
  get_nil,
)

seven_in_both : (data_at (tmq_topic_split a_plus) both).subscribers ≡ some seven
unfolding both subscribed tmq_topics_add_subscription update_topic find_or_create child put_child
    tmq_topic_split put str_eq data_at
seven_in_both = refl

reaches_eight : In eight (clients (tmq_topics_publish no_json request both_left).effects)
unfolding both_left both subscribed tmq_topics_publish match notify_node notify_child match_child
    match_level tmq_topics_add_subscription update_topic find_or_create child put_child
    tmq_topic_split put str_eq update_and_remove erase erase_child clients
reaches_eight = inl refl

unsubscribe_then_publish_example : get c eight ≡ none
unsubscribe_then_publish_example =
    unsubscribe_then_publish no_json a_plus c both both_left seven request eight seven_in_both
      only_here removed (Reach-IsTopicTree both_left-Reach).hash_is_last a_b-IsPlain reaches_eight
