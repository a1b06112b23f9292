-- ===== src/Broker/Connect.antt =====
-- `mqtt_connect` and the choice of an I/O thread in mqtt/mqtt_broker.c.
use tiny_mqtt.Prelude.{
  ℕ, ◌+◌, ◌≡◌, refl, sym, ap, ◌↔◌, inl, inr, Bool-cases, Option-cases, str_eq_iff, Bool, true,
  false, ◌||◌, Option, none, some, [], ◌∷◌, Str, str_eq, c_str, leb, ◌==◌, if◌then◌else◌,
}
use tiny_mqtt.Packet.{ConnectPkt}
use tiny_mqtt.StrMap.{StrMap, get}
use tiny_mqtt.HashMap.Hash.{hash_str}
use tiny_mqtt.Topic.Subscribe.{is_some}
use tiny_mqtt.Broker.Sessions.{SessionReq, session_connect}
use tiny_mqtt.Broker.{Broker, Env, connect_username_flag, connect_password_flag}

-- What becomes of a CONNECT packet: the password is checked in the thread pool, the client is told
-- that it is not authorized, or a session is asked for.
pub data ConnectOutcome : Type 0 where
  validate_in_pool refused : ConnectOutcome
  post : SessionReq → ConnectOutcome

-- A null user name has the hash 0. It is compared, and read, only for a name with that hash.
unfoldable pub has_hash_zero : StrMap Str → Bool
has_hash_zero [] = false
has_hash_zero ((name, pwd) ∷ rest) = (hash_str name == 0) || has_hash_zero rest

-- The user name and the password of a packet are null without their flags. `none` is a fault, a
-- read of one that is null.
unfoldable pub password_matches : Env → ConnectPkt → Broker → Option Bool
password_matches env pkt b =
    if connect_username_flag pkt.flags
    then elim (get (c_str pkt.username) b.pwd_conf) [
      | none ↦ some false
      | some pwd_stored ↦
          if connect_password_flag pkt.flags
          then some (str_eq (env.password_encode (c_str pkt.password)) pwd_stored)
          else none
    ]
    else if has_hash_zero b.pwd_conf
    then none
    else some false

abbrev pub decide : ConnectOutcome → Option Bool → Option ConnectOutcome
decide accepted none = none
decide accepted (some true) = some accepted
decide accepted (some false) = some refused

unfoldable pub mqtt_connect : Env → ℕ → ConnectPkt → Broker → Option ConnectOutcome
mqtt_connect env conn pkt b =
    if b.allow_anonymous
    then some (post (session_connect conn pkt))
    else if b.mysql_enabled
    then some validate_in_pool
    else decide (post (session_connect conn pkt)) (password_matches env pkt b)

-- The index that is used, and the broker with the next one.
unfoldable pub get_next_io_context : Broker → ℕ × Broker
get_next_io_context b =
    let next = b.next_io_context + 1 in
    (b.next_io_context, record b { next_io_context = if leb b.io_threads next then 0 else next })

decide-accepted :
    {r : SessionReq} (o : Option Bool) → (decide (post r) o ≡ some (post r)) ↔ (o ≡ some true)
decide-accepted none = (λ e. cc, λ e. cc)
decide-accepted (some true) = (λ e. refl, λ e. refl)
decide-accepted (some false) = (λ e. cc, λ e. cc)

decide-fault : (r : SessionReq) (o : Option Bool) → (decide (post r) o ≡ none) ↔ (o ≡ none)
decide-fault r none = (λ e. refl, λ e. refl)
decide-fault r (some true) = (λ e. cc, λ e. cc)
decide-fault r (some false) = (λ e. cc, λ e. cc)

-- A packet with a user name and a password whose encoding is stored for that name.
abbrev pub HasCredentials : Env → ConnectPkt → Broker → Type 0
HasCredentials env pkt b =
    (connect_password_flag pkt.flags ≡ true)
    × (get (c_str pkt.username) b.pwd_conf ≡ some (env.password_encode (c_str pkt.password)))

-- A packet with the name of a stored user, and without a password.
abbrev pub LacksPassword : ConnectPkt → Broker → Type 0
LacksPassword pkt b =
    (connect_password_flag pkt.flags ≡ false)
    × (is_some (get (c_str pkt.username) b.pwd_conf) ≡ true)

password_matches_iff :
    (env : Env) (pkt : ConnectPkt) (b : Broker)
    → connect_username_flag pkt.flags ≡ true
    → ((password_matches env pkt b ≡ some true) ↔ HasCredentials env pkt b)
      × ((password_matches env pkt b ≡ none) ↔ LacksPassword pkt b)
unfolding password_matches
password_matches_iff env pkt b u = elim (Option-cases (get (c_str pkt.username) b.pwd_conf)) [
  | inl n ↦ rw (u, n) ((λ e. cc, λ e. cc), (λ e. cc, λ e. cc))
  | inr (stored, g) ↦
      let encoded = env.password_encode (c_str pkt.password) in
      elim (Bool-cases (connect_password_flag pkt.flags)) [
        | inl f ↦
            rw (u, g, f)
              (
                (
                  λ e.
                      let same : encoded ≡ stored = (str_eq_iff encoded stored).0 (cc) in
                      (refl, ap (λ z. some z) (sym same)),
                  λ (t, e).
                      let same : encoded ≡ stored = cc in
                      ap (λ z. some z) ((str_eq_iff encoded stored).1 same),
                ),
                (λ e. cc, λ e. cc),
              )
        | inr f ↦ rw (u, g, f) ((λ e. cc, λ e. cc), (λ e. (refl, refl), λ e. refl))
      ]
]

-- Where clients may not be anonymous and passwords are not in MySQL, a CONNECT packet with a user
-- name leads to the request for a session exactly if it has a password whose encoding is the one
-- stored for the name; and the broker faults, by a read through a null pointer, exactly if the name
-- is stored and the packet has no password.
pub mqtt_connect-credentials :
    (env : Env) (conn : ℕ) (pkt : ConnectPkt) (b : Broker)
    → b.allow_anonymous ≡ false
    → b.mysql_enabled ≡ false
    → connect_username_flag pkt.flags ≡ true
    → ((mqtt_connect env conn pkt b ≡ some (post (session_connect conn pkt)))
        ↔ HasCredentials env pkt b)
      × ((mqtt_connect env conn pkt b ≡ none) ↔ LacksPassword pkt b)
unfolding mqtt_connect password_matches
mqtt_connect-credentials env conn pkt b named stored_here u =
    let (ok, fault) = password_matches_iff env pkt b u in
    let accepted = decide-accepted {r = session_connect conn pkt} (password_matches env pkt b) in
    let faulty = decide-fault (session_connect conn pkt) (password_matches env pkt b) in
    rw (named, stored_here)
      (
        (λ e. ok.0 (accepted.0 e), λ h. accepted.1 (ok.1 h)),
        (λ e. fault.0 (faulty.0 e), λ h. faulty.1 (fault.1 h)),
      )
