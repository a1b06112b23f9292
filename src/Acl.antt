-- ===== src/Acl.antt =====
-- mqtt/mqtt_acl.h and mqtt/mqtt_acl.c: the rules of the access control list, and a list of rules at
-- a node.
pub mod Tree
pub mod Laws
pub mod Widening
mod Tests
use tiny_mqtt.Prelude.{
  ℕ, Str, str_eq, Bool, true, false, not, ◌&&◌, ◌||◌, ◌==◌, Option, none, some, List, [], ◌∷◌,
  if◌then◌else◌,
}
use mathlib.Core.Option

pub data Permission : Type 0 where
  allow deny unknown : Permission

pub data Access : Type 0 where
  pub_access sub_access pub_sub : Access

-- The four kinds of rules, by their check functions, with what they look at. An address is a
-- number.
pub data Target : Type 0 where
  client_id_target : Str → Target
  username_target : Str → Target
  ip_target : ℕ → Target
  all_target : Target

pub record AclRule : Type 0 where
  pub access : Access
  pub permission : Permission
  pub target : Target

-- What the checks read of a session; `peer_addr` is what `tmq_socket_peer_addr` gives for its socket.
pub record Peer : Type 0 where
  pub client_id : Str
  pub username : Str
  pub peer_addr : ℕ

abbrev pub acl_client_id_rule_new : Permission → Str → Access → AclRule
acl_client_id_rule_new permission client_id access = record {
  access = access;
  permission = permission;
  target = client_id_target client_id;
}

abbrev pub acl_username_rule_new : Permission → Str → Access → AclRule
acl_username_rule_new permission username access = record {
  access = access;
  permission = permission;
  target = username_target username;
}

-- From the address that `tmq_addr_from_ip_port` gives.
abbrev pub acl_ip_rule_new : Permission → ℕ → Access → AclRule
acl_ip_rule_new permission addr access = record {
  access = access;
  permission = permission;
  target = ip_target addr;
}

abbrev pub acl_all_rule_new : Permission → Access → AclRule
acl_all_rule_new permission access = record {
  access = access;
  permission = permission;
  target = all_target;
}

abbrev pub same_permission : Permission → Permission → Bool
same_permission allow allow = true
same_permission deny deny = true
same_permission unknown unknown = true
same_permission p q = false

abbrev pub same_access : Access → Access → Bool
same_access pub_access pub_access = true
same_access sub_access sub_access = true
same_access pub_sub pub_sub = true
same_access a b = false

abbrev pub is_unknown : Permission → Bool
is_unknown unknown = true
is_unknown allow = false
is_unknown deny = false

-- The four functions `*_rule_check_permission` behind their test of the access.
unfoldable pub hits : Target → Peer → Bool
hits (client_id_target client_id) peer = str_eq client_id peer.client_id
hits (username_target username) peer = str_eq username peer.username
hits (ip_target addr) peer = addr == peer.peer_addr
hits all_target peer = true

unfoldable pub check_permission : AclRule → Peer → Access → Permission
unfolding hits
check_permission rule peer access =
    if not (same_access rule.access pub_sub) && not (same_access rule.access access)
    then unknown
    else if hits rule.target peer
    then rule.permission
    else unknown

-- The four functions `*_rule_check_same_target`. Rules of two kinds have different check functions.
unfoldable pub check_same_target : Target → Target → Bool
check_same_target (client_id_target a) (client_id_target b) = str_eq a b
check_same_target (username_target a) (username_target b) = str_eq a b
check_same_target (ip_target a) (ip_target b) = a == b
check_same_target all_target all_target = true
check_same_target t u = false

-- A rule of the same target that goes against the new one.
unfoldable pub conflicts : AclRule → AclRule → Bool
conflicts r new =
    not (same_permission r.permission new.permission)
    && (same_access r.access new.access
        || same_access r.access pub_sub
        || same_access new.access pub_sub)

unfoldable pub mergeable : AclRule → AclRule → Bool
mergeable r new =
    same_permission r.permission new.permission && not (same_access r.access new.access)

-- The second test of the loop's body, and the step to the next rule.
unfoldable pub merge_with :
    AclRule → AclRule → Option (List AclRule × Bool) → Option (List AclRule × Bool)
unfolding mergeable
merge_with r new rest =
    if mergeable r new
    then Option.map (λ w. (record r { access = pub_sub } ∷ w.0, true)) rest
    else Option.map (λ w. (r ∷ w.0, w.1)) rest

-- The loop of add_rule: the rules, and whether the new one is merged. After a conflicting rule has
-- been freed, the rule behind it is merged without a look at its target. `none` is a fault: there is
-- no rule behind it.
unfoldable pub walk_rules : List AclRule → AclRule → Option (List AclRule × Bool)
unfolding merge_with check_same_target conflicts
walk_rules [] new = some ([], false)
walk_rules (r ∷ []) new =
    if check_same_target r.target new.target
    then (if conflicts r new then none else merge_with r new (some ([], false)))
    else some (r ∷ [], false)
walk_rules (r ∷ s ∷ rules) new =
    let behind = walk_rules (s ∷ rules) new in
    let behind_next = walk_rules rules new in
    if check_same_target r.target new.target
    then (if conflicts r new then merge_with s new behind_next else merge_with r new behind)
    else Option.map (λ w. (r ∷ w.0, w.1)) behind

-- A new rule that is not merged goes to the front.
unfoldable pub add_rule : List AclRule → AclRule → Option (List AclRule)
unfolding walk_rules
add_rule existing new = Option.map (λ w. if w.1 then w.0 else new ∷ w.0) (walk_rules existing new)

-- The loops of tmq_acl_auth: the first answer of a rule.
unfoldable pub first_permission : List AclRule → Peer → Access → Permission
unfolding check_permission
first_permission [] peer access = unknown
first_permission (r ∷ rules) peer access =
    let later = first_permission rules peer access in
    if is_unknown (check_permission r peer access) then later else check_permission r peer access
