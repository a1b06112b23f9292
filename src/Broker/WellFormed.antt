-- ===== src/Broker/WellFormed.antt =====
-- The broker's map of sessions stays right: every client id leads to a session of that client, and
-- a session that is closed and still there is no clean session, as `start_session` asserts.
use tiny_mqtt.Prelude.{
  ℕ, ◌<◌, ◌==◌, ==_refl, ◌≡◌, refl, sym, ap, ◌∙◌, Bool, true, false, not, ◌&&◌, none, some, Str,
  str_eq, str_eq_iff, Bool-cases, Option-cases, ◌⊎◌, inl, inr, if◌then◌else◌, arith,
}
use tiny_mqtt.StrMap.{get, erase, get-put, get-erase}
use tiny_mqtt.HashMap.Chain.{none-ne-some, some_injective}
use tiny_mqtt.Codec.Read.{bind_some}
use mathlib.Core.Bool.{true≢false}
use tiny_mqtt.Packet.{ConnectPkt}
use tiny_mqtt.Topic.Tree.{Node}
use tiny_mqtt.Session.{
  Session, SessionState, session_open, session_closed, tmq_session_close, tmq_session_resume,
}
use tiny_mqtt.Broker.Sessions.{
  remove_all, session_close_callback, close_session, client_id_of, respond_online, add_session,
  resume_session, replace_session, restart_session, start_session, SessionReq, session_connect,
  session_disconnect, session_force_close, publish_will, handle_session_req,
}
use tiny_mqtt.Broker.Topics.{publish_to_topics}
use tiny_mqtt.Broker.{Broker, Env, Slot, session_at, set_slot, set_session, connect_clean_session}

-- What the map says of the session behind a pointer.
pub record IsKnown (next : ℕ) (k : Str) (id : ℕ) (s : Session) : Type 0 where
  pub allocated : id < next
  pub own_id : s.client_id ≡ k
  pub kept : s.state ≡ session_closed → s.clean_session ≡ false

abbrev pub IsBroker : Broker → Type 0
IsBroker b =
    (k : Str) (id : ℕ) → get k b.sessions ≡ some id → IsKnown b.next_session k id (session_at id b)

pub session_at-set_slot :
    (id i : ℕ) (s : Slot) (b : Broker)
    → session_at i (set_slot id s b) ≡ (if id == i then s.session else session_at i b)
unfolding set_slot
session_at-set_slot id i s b = elim (Bool-cases (id == i)) [
  | inl e ↦
      ap (λ z. (if z then s else b.heap i).session) e
      ∙ sym (ap (λ z. if z then s.session else session_at i b) e)
  | inr e ↦
      ap (λ z. (if z then s else b.heap i).session) e
      ∙ sym (ap (λ z. if z then s.session else session_at i b) e)
]

-- A session that replaces another of the same client behind the same pointer.
set_slot-IsBroker :
    (id : ℕ) (s : Slot) (b : Broker)
    → IsBroker b
    → s.session.client_id ≡ (session_at id b).client_id
    → (s.session.state ≡ session_closed → s.session.clean_session ≡ false)
    → IsBroker (set_slot id s b)
unfolding set_slot
set_slot-IsBroker id s b v e kept k i g =
    let w = v k i g in
    let h = session_at-set_slot id i s b in
    elim (Bool-cases (id == i)) [
      | inl q ↦
          let same : id ≡ i = ground arith in
          let own : s.session.client_id ≡ k =
            e ∙ ap (λ z. (session_at z b).client_id) same ∙ w.own_id in
          rw (h, q) (record { allocated = w.allocated; own_id = own; kept = kept })
      | inr q ↦ rw (h, q) w
    ]

-- A session goes, and with it the entry of its client.
erase-IsBroker :
    (id : ℕ) (s : Slot) (cid : Str) (b : Broker)
    → IsBroker b
    → (session_at id b).client_id ≡ cid
    → (k : Str) (i : ℕ) → get k (erase cid b.sessions) ≡ some i
    → IsKnown b.next_session k i (session_at i (set_slot id s b))
erase-IsBroker id s cid b v e k i g = elim (Bool-cases (str_eq cid k)) [
  | inl q ↦ absurd (
      none-ne-some
        (sym (get-erase cid k b.sessions ∙ ap (λ z. if z then none else get k b.sessions) q) ∙ g))
  | inr q ↦
      let g₂ : get k b.sessions ≡ some i =
        sym (get-erase cid k b.sessions ∙ ap (λ z. if z then none else get k b.sessions) q) ∙ g in
      let w = v k i g₂ in
      let h = session_at-set_slot id i s b in
      elim (Bool-cases (id == i)) [
        | inl p ↦
            let same : id ≡ i = ground arith in
            let eq = sym e ∙ ap (λ z. (session_at z b).client_id) same ∙ w.own_id in
            absurd (true≢false (sym ((str_eq_iff cid k).1 eq) ∙ q))
        | inr p ↦ rw (h, p) w
      ]
]

close_session-IsBroker :
    (id : ℕ) (force : Bool) (b b' : Broker)
    → IsBroker b
    → close_session id force b ≡ some b'
    → IsBroker b'
unfolding close_session session_close_callback tmq_session_close set_slot
close_session-IsBroker id force b b' v e =
    let s = tmq_session_close force (session_at id b) in
    let old = session_at id b in
    elim (Bool-cases (not old.clean_session && not force)) [
      | inl p ↦
          let k = some_injective (rw (close_session, session_close_callback, p) at e) in
          rw (← k) (set_slot-IsBroker id _ b v refl (λ _. ground arith))
      | inr p ↦
          let next = λ (root : Node). some (record (set_session id s b) {
            topics_tree = root;
            sessions = erase s.client_id b.sessions;
          }) in
          let (root, q, k) =
            bind_some (remove_all s.subscriptions s.client_id b.topics_tree) next b'
              (rw (close_session, session_close_callback, p) at e) in
          let k₂ = some_injective k in rw (← k₂) (erase-IsBroker id _ old.client_id b v refl)
    ]

add_session-IsBroker :
    (env : Env) (conn : ℕ) (pkt : ConnectPkt) (clean : Bool) (b : Broker)
    → IsBroker b
    → IsBroker (add_session env conn pkt clean b)
unfolding add_session
add_session-IsBroker env conn pkt clean b v k i g =
    let cid = client_id_of env conn pkt in
    let id = b.next_session in
    let at = get-put cid k id b.sessions in
    elim (Bool-cases (str_eq cid k)) [
      | inl p ↦
          let same : id ≡ i =
            some_injective (sym (at ∙ ap (λ z. if z then some id else get k b.sessions) p) ∙ g) in
          rw (← same, session_at-set_slot, ==_refl)
            (record {
              allocated = omega arith;
              own_id = (str_eq_iff cid k).0 p;
              kept = λ closed. cc;
            })
      | inr p ↦
          let g₂ : get k b.sessions ≡ some i =
            sym (at ∙ ap (λ z. if z then some id else get k b.sessions) p) ∙ g in
          let w = v k i g₂ in
          let other : (id == i) ≡ false = let l = w.allocated in ground arith in
          rw (session_at-set_slot, other)
            (record {
              allocated = let l = w.allocated in omega arith;
              own_id = w.own_id;
              kept = w.kept;
            })
    ]

resume_session-IsBroker :
    (env : Env) (conn : ℕ) (pkt : ConnectPkt) (id : ℕ) (b : Broker)
    → IsBroker b
    → IsBroker (resume_session env conn pkt id b)
unfolding resume_session tmq_session_resume
resume_session-IsBroker env conn pkt id b v = set_slot-IsBroker id _ b v refl (λ closed. cc)

pub SessionState-cases : (s : SessionState) → (s ≡ session_open) ⊎ (s ≡ session_closed)
SessionState-cases session_open = inl refl
SessionState-cases session_closed = inr refl

restart_session-IsBroker :
    (env : Env) (conn : ℕ) (pkt : ConnectPkt) (id : ℕ) (b b' : Broker)
    → IsBroker b
    → restart_session env conn pkt id b ≡ some b'
    → IsBroker b'
unfolding restart_session replace_session
restart_session-IsBroker env conn pkt id b b' v e =
    elim (SessionState-cases (session_at id b).state) [
      | inl o ↦ let k = some_injective (rw (restart_session, o) at e) in rw (← k) v
      | inr c ↦ elim (Bool-cases (session_at id b).clean_session) [
        | inl p ↦ absurd (none-ne-some (rw (restart_session, c, p) at e))
        | inr p ↦ elim (Bool-cases (connect_clean_session pkt.flags)) [
          | inl q ↦
              let (b₁, r, k) =
                bind_some (close_session id true b)
                  (λ b₁.
                    some
                      (respond_online conn b₁.next_session true (add_session env conn pkt true b₁)))
                  b' (rw (restart_session, replace_session, c, p, q) at e) in
              let k₂ = some_injective k in
              rw (← k₂) (
                add_session-IsBroker env conn pkt true b₁ (close_session-IsBroker id true b b₁ v r))
          | inr q ↦
              let k = some_injective (rw (restart_session, c, p, q) at e) in
              rw (← k) (resume_session-IsBroker env conn pkt id b v)
        ]
      ]
    ]

start_session-IsBroker :
    (env : Env) (conn : ℕ) (pkt : ConnectPkt) (b b' : Broker)
    → IsBroker b
    → start_session env conn pkt b ≡ some b'
    → IsBroker b'
unfolding start_session
start_session-IsBroker env conn pkt b b' v e =
    elim (Option-cases (get (client_id_of env conn pkt) b.sessions)) [
      | inl g ↦
          let k = some_injective (rw (start_session, g) at e) in
          rw (← k) (add_session-IsBroker env conn pkt (connect_clean_session pkt.flags) b v)
      | inr (id, g) ↦ restart_session-IsBroker env conn pkt id b b' v (rw (start_session, g) at e)
    ]

publish_will-IsBroker :
    (env : Env) (s : Session) (b : Broker) → IsBroker b → IsBroker (publish_will env s b)
unfolding publish_will publish_to_topics
publish_will-IsBroker env s b v = elim (Option-cases s.will) [
  | inl e ↦ rw (publish_will, e) v
  | inr (w, e) ↦ rw (publish_will, e) v
]

-- Every request to start, end or break a session keeps the map of sessions right.
pub handle_session_req-IsBroker :
    (env : Env) (req : SessionReq) (b b' : Broker)
    → IsBroker b
    → handle_session_req env req b ≡ some b'
    → IsBroker b'
unfolding handle_session_req
handle_session_req-IsBroker env (session_connect conn pkt) b b' v e =
    start_session-IsBroker env conn pkt b b' v e
handle_session_req-IsBroker env (session_disconnect id) b b' v e =
    close_session-IsBroker id false b b' v e
handle_session_req-IsBroker env (session_force_close id) b b' v e =
    close_session-IsBroker id false _ b' (publish_will-IsBroker env (session_at id b) b v) e
