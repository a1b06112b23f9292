-- ===== src/Broker/Close.antt =====
-- The end of a session: what a clean session leaves behind, and what a later connection finds of
-- another.
use tiny_mqtt.Prelude.{
  ℕ, ==_refl, ◌≡◌, refl, ap, ◌∙◌, Bool, true, false, ◌&&◌, ◌||◌, none, some, List, [], ◌∷◌, ◌++◌,
  Str, str_eq, str_eq_refl, Option-cases, inl, inr, if◌then◌else◌, All, arith,
}
use tiny_mqtt.StrMap.{StrMap, get, erase, get-erase}
use tiny_mqtt.Packet.{ConnectPkt}
use tiny_mqtt.Topic.Split.{tmq_topic_split}
use tiny_mqtt.Topic.Tree.{SubscribeInfo, SubscribeMap, Node, data_at, path_eq}
use tiny_mqtt.Topic.Subscribe.Laws.{subscription}
use tiny_mqtt.Topic.Subscribe.Removal.{tmq_topics_remove_subscription-subscription}
use tiny_mqtt.Session.{Session, session_open, session_closed, tmq_session_close, tmq_session_resume}
use tiny_mqtt.Broker.Sessions.{
  remove_all, session_close_callback, close_session, will_of, respond_online, resume_session,
  restart_session, start_session, session_connect, session_disconnect, handle_session_req,
}
use tiny_mqtt.Broker.WellFormed.{session_at-set_slot}
use tiny_mqtt.Broker.{
  Broker, Env, session_at, set_slot, set_session, connect_response, device_online,
  connection_accepted, connect_clean_session,
}

-- The client has a subscription at the end of each filter's path.
abbrev pub AreSubscribed : StrMap ℕ → Str → Node → Type 0
AreSubscribed filters client_id root =
    All (λ f. (i : SubscribeInfo) × (subscription (tmq_topic_split f.0) client_id root ≡ some i))
      filters

-- No two filters have the same levels.
abbrev pub ArePathsDistinct : StrMap ℕ → Type 0
ArePathsDistinct [] = Unit
ArePathsDistinct (f ∷ fs) =
    All (λ g. path_eq (tmq_topic_split f.0) (tmq_topic_split g.0) ≡ false) fs × ArePathsDistinct fs

abbrev pub is_path_of : List Str → StrMap ℕ → Bool
is_path_of p [] = false
is_path_of p (f ∷ fs) = path_eq (tmq_topic_split f.0) p || is_path_of p fs

-- A client with a subscription is in a map of subscribers.
subscribers_of :
    (p : List Str) (client_id : Str) (root : Node) (i : SubscribeInfo)
    → subscription p client_id root ≡ some i
    → (s : SubscribeMap) × ((data_at p root).subscribers ≡ some s)
unfolding get
subscribers_of p client_id root i e = elim (Option-cases (data_at p root).subscribers) [
  | inl n ↦ let none_there : none ≡ some i = rw n at e in absurd cc
  | inr (s, h) ↦ (s, h)
]

AreSubscribed-removed :
    (path : List Str) (client_id : Str) (root root' : Node) (fs : StrMap ℕ)
    → ((p : List Str) (other : Str)
        → subscription p other root' ≡ (
            if path_eq path p
            then (if str_eq client_id other then none else subscription p other root)
            else subscription p other root))
    → All (λ g. path_eq path (tmq_topic_split g.0) ≡ false) fs
    → AreSubscribed fs client_id root
    → AreSubscribed fs client_id root'
AreSubscribed-removed path client_id root root' [] law d a = tt
AreSubscribed-removed path client_id root root' (f ∷ fs) law (d, ds) ((i, e), rest) =
    let k = law (tmq_topic_split f.0) client_id in
    ((i, ground (arith, k)), AreSubscribed-removed path client_id root root' fs law ds rest)

-- Removing all of a client's filters removes its subscriptions to them, and no other.
remove_all-subscription :
    (fs : StrMap ℕ) (client_id : Str) (root : Node)
    → AreSubscribed fs client_id root
    → ArePathsDistinct fs
    → (root' : Node) × (remove_all fs client_id root ≡ some root')
      × ((p : List Str) (other : Str)
          → subscription p other root' ≡ (
              if str_eq client_id other && is_path_of p fs
              then none
              else subscription p other root))
unfolding remove_all
remove_all-subscription [] client_id root a d = (root, refl, λ p other. ground arith)
remove_all-subscription ((f, q) ∷ fs) client_id root ((i, e), rest) (d, ds) =
    let (s, h) = subscribers_of (tmq_topic_split f) client_id root i e in
    let (root₁, e₁, law, _) = tmq_topics_remove_subscription-subscription f client_id root s h in
    let (root₂, e₂, law₂) =
      remove_all-subscription fs client_id root₁
        (AreSubscribed-removed (tmq_topic_split f) client_id root root₁ fs law d rest) ds in
    (root₂, rw (remove_all, e₁) e₂, λ p other. ground (arith, law p other, law₂ p other))

-- A DISCONNECT of a clean session succeeds; the session's client id leads to no session any more,
-- and the client's subscriptions to the session's filters are gone, and no other. (The client is
-- subscribed to all these filters, and no two of them have the same levels.)
pub disconnect_clean :
    (env : Env) (id : ℕ) (b : Broker)
    → (session_at id b).clean_session ≡ true
    → AreSubscribed (session_at id b).subscriptions (session_at id b).client_id b.topics_tree
    → ArePathsDistinct (session_at id b).subscriptions
    → let s = session_at id b in
      (b' : Broker) × (handle_session_req env (session_disconnect id) b ≡ some b')
      × (get s.client_id b'.sessions ≡ none)
      × ((p : List Str) (other : Str)
          → subscription p other b'.topics_tree ≡ (
              if str_eq s.client_id other && is_path_of p s.subscriptions
              then none
              else subscription p other b.topics_tree))
unfolding handle_session_req close_session session_close_callback tmq_session_close set_slot
disconnect_clean env id b clean a d =
    let s = session_at id b in
    let (root, e, law) = remove_all-subscription s.subscriptions s.client_id b.topics_tree a d in
    (
      record (set_session id (tmq_session_close false s) b) {
        topics_tree = root;
        sessions = erase s.client_id b.sessions;
      },
      rw (handle_session_req, close_session, session_close_callback, clean, e) refl,
      get-erase s.client_id s.client_id b.sessions ∙ rw (str_eq_refl s.client_id) refl,
      law,
    )

session_at-set_session :
    (id : ℕ) (s : Session) (b : Broker) → session_at id (set_session id s b) ≡ s
session_at-set_session id s b = session_at-set_slot id id _ b ∙ rw (==_refl id) refl

start_session-resumed :
    (env : Env) (id conn ch : ℕ) (rest : Str) (pkt : ConnectPkt) (b : Broker)
    → (session_at id b).state ≡ session_closed
    → (session_at id b).clean_session ≡ false
    → get (ch ∷ rest) b.sessions ≡ some id
    → pkt.client_id ≡ ch ∷ rest
    → connect_clean_session pkt.flags ≡ false
    → start_session env conn pkt b
      ≡ some (respond_online conn id true (resume_session env conn pkt id b))
unfolding start_session restart_session resume_session
start_session-resumed env id conn ch rest pkt b closed keep g same flag =
    rw (start_session, same, g, restart_session, closed, keep, flag) refl

-- A client that disconnects from a session that is no clean session, and connects again with the
-- same id and without asking for a clean session, is told that its session was there; the session
-- is open, with its subscriptions, its queue of messages and the ids of the QoS 2 messages that it
-- has received; and the topic tree is as it was.
pub reconnect_keeps :
    (env : Env) (id conn ch : ℕ) (rest : Str) (pkt : ConnectPkt) (b : Broker)
    → (session_at id b).clean_session ≡ false
    → get (ch ∷ rest) b.sessions ≡ some id
    → pkt.client_id ≡ ch ∷ rest
    → connect_clean_session pkt.flags ≡ false
    → let s = session_at id b in
      (b₁ : Broker) × (handle_session_req env (session_disconnect id) b ≡ some b₁)
      × (b₂ : Broker) × (handle_session_req env (session_connect conn pkt) b₁ ≡ some b₂)
      × (b₂.topics_tree ≡ b.topics_tree)
      × (b₂.effects
          ≡ b.effects
            ++ (connect_response conn connection_accepted (some id) true ∷ [])
            ++ (device_online pkt.username s.client_id ∷ []))
      × ((session_at id b₂).state ≡ session_open)
      × ((session_at id b₂).subscriptions ≡ s.subscriptions)
      × ((session_at id b₂).message_store ≡ s.message_store)
      × ((session_at id b₂).qos2_packet_ids ≡ s.qos2_packet_ids)
unfolding handle_session_req close_session session_close_callback tmq_session_close start_session
    restart_session resume_session tmq_session_resume set_slot
reconnect_keeps env id conn ch rest pkt b keep g same flag =
    let s = session_at id b in
    let b₁ = set_session id (tmq_session_close false s) b in
    let h₁ = session_at-set_session id (tmq_session_close false s) b in
    let b₂ = respond_online conn id true (resume_session env conn pkt id b₁) in
    let h₂ : session_at id b₂
        ≡ tmq_session_resume env.now pkt.username pkt.keep_alive (will_of pkt) (session_at id b₁) =
      session_at-set_slot id id _ b₁ ∙ rw (==_refl id) refl in
    (
      b₁,
      rw (handle_session_req, close_session, session_close_callback, keep) refl,
      b₂,
      start_session-resumed env id conn ch rest pkt b₁ (ap (λ z. z.state) h₁)
          (ap (λ z. z.clean_session) h₁ ∙ keep) g same flag,
      refl,
      ap
            (λ z.
              b.effects
              ++ (connect_response conn connection_accepted (some id) true ∷ [])
              ++ (device_online z.username z.client_id ∷ []))
            h₂
          ∙ ap
              (λ z.
                b.effects
                ++ (connect_response conn connection_accepted (some id) true ∷ [])
                ++ (device_online pkt.username z.client_id ∷ []))
              h₁,
      ap (λ z. z.state) h₂,
      ap (λ z. z.subscriptions) h₂ ∙ ap (λ z. z.subscriptions) h₁,
      ap (λ z. z.message_store) h₂ ∙ ap (λ z. z.message_store) h₁,
      ap (λ z. z.qos2_packet_ids) h₂ ∙ ap (λ z. z.qos2_packet_ids) h₁,
    )
