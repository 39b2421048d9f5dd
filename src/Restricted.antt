-- ===== src/Restricted.antt =====
-- Restricted destinations: core/internal/profile/restricted.go over the tables of core/internal/store
-- (restricted.go, relay.go, egress.go, user.go and group.go). A query is a function of the rows.
pub mod Stopped
pub mod Scope
mod Examples
use chiral.Prelude.{
  Bool, true, false, not, ◌&&◌, ◌||◌, String, List, [], ◌∷◌, ◌++◌, Option, none, some, map, keep,
  any, contains, if◌then◌else◌, str_eq,
}

-- The columns that are read. A missing group is `none`, and a missing target the empty text, as
-- `EgressRule` has it.
pub record User : Type 0 where
  pub id : String
  pub group_id : Option String

pub record Credential : Type 0 where
  pub user_id : String
  pub node_id : String
  pub email : String

pub record NodeRelay : Type 0 where
  pub entry_node_id : String
  pub exit_node_id : String
  pub enabled : Bool

pub record EgressRule : Type 0 where
  pub node_id : String
  pub target_kind : String
  pub target_node_id : String
  pub enabled : Bool

-- `RestrictedDestination`
pub record Destination : Type 0 where
  pub id : String
  pub cidrs : List String
  pub domains : List String
  pub node_ids : List String
  pub allowed_user_ids : List String
  pub allowed_group_ids : List String

pub record Tables : Type 0 where
  pub destinations : List Destination
  pub relays : List NodeRelay
  pub egress : List EgressRule
  pub credentials : List Credential
  pub users : List User

-- `RelaysFromEntry`
unfoldable pub relays_from_entry : Tables → String → List NodeRelay
relays_from_entry t node_id = keep (λ r. str_eq r.entry_node_id node_id && r.enabled) t.relays

-- `EgressRulesOn`
unfoldable pub egress_rules_on : Tables → String → List EgressRule
egress_rules_on t node_id = keep (λ r. str_eq r.node_id node_id) t.egress

-- The test of an egress rule in `blocksFor`.
abbrev pub lands : EgressRule → Bool
lands r = r.enabled && str_eq r.target_kind "node" && not (str_eq r.target_node_id "")

-- `exitOf`, as the keys that are set.
unfoldable pub exit_of : Tables → String → List String
unfolding relays_from_entry egress_rules_on
exit_of t node_id =
    map (λ r. r.exit_node_id) (relays_from_entry t node_id)
    ++ map (λ r. r.target_node_id) (keep lands (egress_rules_on t node_id))

-- `applies`
unfoldable pub in_scope : Tables → String → Destination → Bool
unfolding exit_of
in_scope t node_id d =
    let exits = exit_of t node_id in
    any (λ nid. str_eq nid node_id || contains exits nid) d.node_ids

abbrev pub is_group : Option String → String → Bool
is_group none gid = false
is_group (some g) gid = str_eq g gid

-- `GroupMemberIDs`
unfoldable pub group_member_ids : Tables → String → List String
group_member_ids t gid = map (λ u. u.id) (keep (λ u. is_group u.group_id gid) t.users)

unfoldable pub all_member_ids : Tables → List String → List String
unfolding group_member_ids
all_member_ids t [] = []
all_member_ids t (gid ∷ gids) = group_member_ids t gid ++ all_member_ids t gids

-- `allowed`, as the keys that are set.
unfoldable pub allowed : Tables → Destination → List String
unfolding all_member_ids
allowed t d = d.allowed_user_ids ++ all_member_ids t d.allowed_group_ids

-- `NodeCredentials`
unfoldable pub node_credentials : Tables → String → List Credential
node_credentials t node_id = keep (λ c. str_eq c.node_id node_id) t.credentials

abbrev pub emails_of : List Credential → User → List String
emails_of creds u = map (λ c. c.email) (keep (λ c. str_eq c.user_id u.id) creds)

-- The loop over the users.
unfoldable pub barred_emails : List String → List Credential → List User → List String
barred_emails allow creds [] = []
barred_emails allow creds (u ∷ users) =
    (if contains allow u.id then [] else emails_of creds u) ++ barred_emails allow creds users

-- `BlockSource`
pub record BlockSource : Type 0 where
  pub cidrs : List String
  pub domains : List String
  pub emails : List String

abbrev pub block_unless_empty : Destination → List String → List BlockSource
block_unless_empty d [] = []
block_unless_empty d (e ∷ emails) =
    record { cidrs = d.cidrs; domains = d.domains; emails = e ∷ emails } ∷ []

-- What `blocksFor` appends for one destination.
unfoldable pub blocks_of : Tables → String → Destination → List BlockSource
unfolding in_scope allowed node_credentials barred_emails
blocks_of t node_id d =
    if in_scope t node_id d
    then block_unless_empty d (barred_emails (allowed t d) (node_credentials t node_id) t.users)
    else []

unfoldable pub blocks_loop : Tables → String → List Destination → List BlockSource
unfolding blocks_of
blocks_loop t node_id [] = []
blocks_loop t node_id (d ∷ dests) = blocks_of t node_id d ++ blocks_loop t node_id dests

-- `blocksFor`
unfoldable pub blocks_for : Tables → String → List BlockSource
unfolding blocks_loop
blocks_for t node_id = blocks_loop t node_id t.destinations

-- `add_id`
abbrev pub add_id : String → List String → List String
add_id id out = if contains out id then out else out ++ (id ∷ [])

abbrev pub add_all : List String → List String → List String
add_all [] out = out
add_all (id ∷ ids) out = add_all ids (add_id id out)

-- The loop over the nodes of the destination, for one relay.
abbrev pub add_entry : NodeRelay → List String → List String → List String
add_entry r [] out = out
add_entry r (nid ∷ ids) out =
    add_entry r ids (if str_eq r.exit_node_id nid then add_id r.entry_node_id out else out)

unfoldable pub add_entries : List NodeRelay → List String → List String → List String
add_entries [] ids out = out
add_entries (r ∷ relays) ids out =
    add_entries relays ids (if r.enabled then add_entry r ids out else out)

-- `EgressSourceNodesFor`, but for the order and what `DISTINCT` leaves out.
unfoldable pub egress_source_nodes_for : Tables → List String → List String
egress_source_nodes_for t ids =
    map (λ r. r.node_id) (keep (λ r. lands r && contains ids r.target_node_id) t.egress)

-- `RestrictedNodeIDs` of a destination that is there.
unfoldable pub restricted_node_ids : Tables → Destination → List String
unfolding add_entries egress_source_nodes_for
restricted_node_ids t d =
    add_all (egress_source_nodes_for t d.node_ids)
      (add_entries t.relays d.node_ids (add_all d.node_ids []))
