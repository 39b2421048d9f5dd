-- ===== src/Restricted/Examples.antt =====
-- A network that only the exit node reaches: the entry of a relay to it has to stop the others.
use chiral.Prelude.{◌≡◌, refl, ◌&&◌, true, false, [], ◌∷◌, none, some, any, contains}
use chiral.Restricted.{
  Tables, Destination, in_scope, exit_of, relays_from_entry, egress_rules_on, allowed,
  all_member_ids, group_member_ids, node_credentials, barred_emails, blocks_of, blocks_loop,
  blocks_for, restricted_node_ids, add_entries, egress_source_nodes_for,
}
use chiral.Restricted.Scope.{contains-restricted_node_ids}
use chiral.Restricted.Stopped.{stops, bars, any-blocks_of}

abbrev dn42 : Destination
dn42 = record {
  id = "d";
  cidrs = "172.20.0.0/14" ∷ [];
  domains = "dn42" ∷ [];
  node_ids = "exit" ∷ [];
  allowed_user_ids = [];
  allowed_group_ids = "friends" ∷ [];
}

abbrev tables : Tables
tables = record {
  destinations = dn42 ∷ [];
  relays = record { entry_node_id = "entry"; exit_node_id = "exit"; enabled = true } ∷ [];
  egress =
      record { node_id = "home"; target_kind = "node"; target_node_id = "exit"; enabled = false }
      ∷ [];
  credentials =
      record { user_id = "a"; node_id = "entry"; email = "a@entry" }
      ∷ record { user_id = "b"; node_id = "entry"; email = "b@entry" }
      ∷ [];
  users =
      record { id = "a"; group_id = some "friends" } ∷ record { id = "b"; group_id = none } ∷ [];
}

built :
    blocks_for tables "entry"
    ≡ record { cidrs = "172.20.0.0/14" ∷ []; domains = "dn42" ∷ []; emails = "b@entry" ∷ [] } ∷ []
unfolding blocks_for blocks_loop blocks_of in_scope exit_of relays_from_entry egress_rules_on
    allowed all_member_ids group_member_ids node_credentials barred_emails
built = refl

pushed : restricted_node_ids tables dn42 ≡ "exit" ∷ "entry" ∷ []
unfolding restricted_node_ids add_entries egress_source_nodes_for
pushed = refl

contains-restricted_node_ids_example :
    contains (restricted_node_ids tables dn42) "entry" ≡ in_scope tables "entry" dn42
contains-restricted_node_ids_example = contains-restricted_node_ids tables dn42 "entry"

any-blocks_of_example :
    any (stops "b@entry") (blocks_of tables "entry" dn42)
    ≡ (in_scope tables "entry" dn42 && bars tables "entry" dn42 "b@entry")
any-blocks_of_example = any-blocks_of tables "entry" dn42 "b@entry"
