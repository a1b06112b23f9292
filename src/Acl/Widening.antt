-- ===== src/Acl/Widening.antt =====
-- mqtt/mqtt_acl.c: what add_rule does to the rule behind one that it frees.
use tiny_mqtt.Prelude.{◌≡◌, ◌∙◌, Bool, true, false, some, List, ◌∷◌, arith}
use tiny_mqtt.Acl.{
  AclRule, Peer, Access, Permission, pub_sub, is_unknown, same_permission, hits, check_same_target,
  conflicts, mergeable, merge_with, walk_rules, add_rule, first_permission, check_permission,
}

same_permission-eq : (p q : Permission) → same_permission p q ≡ true → p ≡ q
same_permission-eq p q h = ground (arith, h)

add_rule-conflict :
    (old other new : AclRule) (rules w : List AclRule) (b : Bool)
    → check_same_target old.target new.target ≡ true
    → conflicts old new ≡ true
    → mergeable other new ≡ true
    → walk_rules rules new ≡ some (w, b)
    → add_rule (old ∷ other ∷ rules) new ≡ some (record other { access = pub_sub } ∷ w)
unfolding add_rule walk_rules merge_with
add_rule-conflict old other new rules w b t c m h = rw (t, c, m, h)

first_permission-widened :
    (other : AclRule) (rules : List AclRule) (peer : Peer) (access : Access)
    → hits other.target peer ≡ true
    → is_unknown other.permission ≡ false
    → first_permission (record other { access = pub_sub } ∷ rules) peer access ≡ other.permission
unfolding first_permission check_permission
first_permission-widened other rules peer access h k = rw (h, k)

-- The new rule conflicts with the first rule, which has its target, and agrees with the rule behind
-- that one in permission but not in access. Then the list becomes the rule behind, widened to
-- publishing and subscribing whatever its target, followed by what the walk makes of the rest; the
-- new rule itself is not put in front. Each client that the widened rule is about gets the new
-- rule's permission for every access.
pub add_rule-widens_next :
    (old other new : AclRule) (rules w : List AclRule) (b : Bool) (peer : Peer) (access : Access)
    → check_same_target old.target new.target ≡ true
    → conflicts old new ≡ true
    → mergeable other new ≡ true
    → walk_rules rules new ≡ some (w, b)
    → hits other.target peer ≡ true
    → is_unknown new.permission ≡ false
    → (add_rule (old ∷ other ∷ rules) new ≡ some (record other { access = pub_sub } ∷ w))
      × (first_permission (record other { access = pub_sub } ∷ w) peer access ≡ new.permission)
unfolding mergeable
add_rule-widens_next old other new rules w b peer access t c m h hit known =
    let same : other.permission ≡ new.permission =
      same_permission-eq other.permission new.permission (ground (arith, m)) in
    (
      add_rule-conflict old other new rules w b t c m h,
      first_permission-widened other w peer access hit (rw same known) ∙ same,
    )
