-- ===== src/Restricted/Stopped.antt =====
-- Whom the blocks of a node stop.
use chiral.Prelude.{
  ◌≡◌, refl, sym, ◌∙◌, Bool, true, false, not, ◌&&◌, ◌||◌, String, List, [], ◌∷◌, Option, none,
  some, arith, inl, inr, map, keep, any, contains, str_eq, str_eq_sym, Bool-cases,
}
use chiral.Restricted.Scope.{contains-append}
use chiral.Restricted.{
  User, Credential, Destination, Tables, in_scope, is_group, group_member_ids, all_member_ids,
  allowed, node_credentials, emails_of, barred_emails, BlockSource, block_unless_empty, blocks_of,
}

-- A destination lets somebody in by name, or by the group that a row of theirs is in.
abbrev in_groups : List String → Option String → Bool
in_groups gids none = false
in_groups gids (some g) = contains gids g

abbrev pub admits : Tables → Destination → String → Bool
admits t d uid =
    contains d.allowed_user_ids uid
    || any (λ u. in_groups d.allowed_group_ids u.group_id && str_eq u.id uid) t.users

-- Whether the address is a credential on the node of a user whom the destination does not let in.
abbrev pub holds : Tables → String → String → User → Bool
holds t node_id email u =
    any (λ c. str_eq c.node_id node_id && str_eq c.user_id u.id && str_eq c.email email)
      t.credentials

abbrev pub bars : Tables → String → Destination → String → Bool
bars t node_id d email = any (λ u. not (admits t d u.id) && holds t node_id email u) t.users

-- A routing rule stops the addresses that it lists, and everybody where it lists none.
abbrev pub stops : String → BlockSource → Bool
stops email b = is_none b.emails || contains b.emails email
  where
    is_none : List String → Bool
    is_none [] = true
    is_none (_ ∷ _) = false

contains-members :
    (gid uid : String) (users : List User)
    → contains (map (λ u. u.id) (keep (λ u. is_group u.group_id gid) users)) uid
      ≡ any (λ u. is_group u.group_id gid && str_eq u.id uid) users
contains-members gid uid [] = refl
contains-members gid uid (u ∷ users) = elim (Bool-cases (is_group u.group_id gid)) [
  | inl e ↦ rw e (ground (arith, contains-members gid uid users))
  | inr e ↦ rw e (contains-members gid uid users)
]

abbrev of_groups : List String → String → List User → Bool
of_groups gids uid = any (λ u. in_groups gids u.group_id && str_eq u.id uid)

of_groups-nil : (uid : String) (users : List User) → of_groups [] uid users ≡ false
of_groups-nil uid [] = refl
of_groups-nil uid (u ∷ users) = ground (arith, of_groups-nil uid users)

in_groups-cons :
    (gid : String) (gids : List String) (g : Option String)
    → in_groups (gid ∷ gids) g ≡ (is_group g gid || in_groups gids g)
in_groups-cons gid gids none = refl
in_groups-cons gid gids (some g) = ground (arith, str_eq_sym gid g)

of_groups-cons :
    (gid : String) (gids : List String) (uid : String) (users : List User)
    → of_groups (gid ∷ gids) uid users
      ≡ (any (λ u. is_group u.group_id gid && str_eq u.id uid) users || of_groups gids uid users)
of_groups-cons gid gids uid [] = refl
of_groups-cons gid gids uid (u ∷ users) =
    rw (in_groups-cons gid gids u.group_id) (ground (arith, of_groups-cons gid gids uid users))

contains-all_member_ids :
    (t : Tables) (gids : List String) (uid : String)
    → contains (all_member_ids t gids) uid ≡ of_groups gids uid t.users
unfolding all_member_ids group_member_ids
contains-all_member_ids t [] uid = sym (of_groups-nil uid t.users)
contains-all_member_ids t (gid ∷ gids) uid = ground (
  arith,
  contains-append (map (λ (u : User). u.id) (keep (λ u. is_group u.group_id gid) t.users))
      (all_member_ids t gids) uid,
  contains-members gid uid t.users,
  contains-all_member_ids t gids uid,
  of_groups-cons gid gids uid t.users,
)

contains-allowed :
    (t : Tables) (d : Destination) (uid : String) → contains (allowed t d) uid ≡ admits t d uid
unfolding allowed
contains-allowed t d uid = ground (
  arith,
  contains-append d.allowed_user_ids (all_member_ids t d.allowed_group_ids) uid,
  contains-all_member_ids t d.allowed_group_ids uid,
)

contains-emails_of :
    (n email : String) (u : User) (creds : List Credential)
    → contains (emails_of (keep (λ c. str_eq c.node_id n) creds) u) email
      ≡ any (λ c. str_eq c.node_id n && str_eq c.user_id u.id && str_eq c.email email) creds
contains-emails_of n email u [] = refl
contains-emails_of n email u (c ∷ creds) = elim (Bool-cases (str_eq c.node_id n)) [
  | inl e ↦ elim (Bool-cases (str_eq c.user_id u.id)) [
    | inl f ↦ rw e (rw f (ground (arith, contains-emails_of n email u creds)))
    | inr f ↦ rw e (rw f (ground (arith, contains-emails_of n email u creds)))
  ]
  | inr e ↦ rw e (contains-emails_of n email u creds)
]

contains-barred_emails :
    (t : Tables) (n : String) (d : Destination) (email : String) (users : List User)
    → contains (barred_emails (allowed t d) (node_credentials t n) users) email
      ≡ any (λ u. not (admits t d u.id) && holds t n email u) users
unfolding barred_emails node_credentials
contains-barred_emails t n d email [] = refl
contains-barred_emails t n d email (u ∷ users) =
    let creds = keep (λ (c : Credential). str_eq c.node_id n) t.credentials in
    let rest = barred_emails (allowed t d) creds users in
    let here = contains-append (emails_of creds u) rest email in
    let ih = contains-barred_emails t n d email users in
    let mine = contains-emails_of n email u t.credentials in
    rw (contains-allowed t d u.id) (elim (Bool-cases (admits t d u.id)) [
      | inl e ↦ rw e ih
      | inr e ↦ rw e (here ∙ rw mine (rw ih refl))
    ])

stops-block_unless_empty :
    (d : Destination) (email : String) (emails : List String)
    → any (stops email) (block_unless_empty d emails) ≡ contains emails email
stops-block_unless_empty d email [] = refl
stops-block_unless_empty d email (e ∷ emails) = ground arith

-- What a node's configuration stops on the way to a destination: exactly the addresses that are
-- credentials on that node of a user whom the destination does not let in, by name or by group, where
-- the destination is in scope there; and nobody else, least of all everybody.
pub any-blocks_of :
    (t : Tables) (n : String) (d : Destination) (email : String)
    → any (stops email) (blocks_of t n d) ≡ (in_scope t n d && bars t n d email)
unfolding blocks_of
any-blocks_of t n d email =
    let emails = barred_emails (allowed t d) (node_credentials t n) t.users in
    elim (Bool-cases (in_scope t n d)) [
      | inl e ↦
          rw e
            (stops-block_unless_empty d email emails ∙ contains-barred_emails t n d email t.users)
      | inr e ↦ rw e refl
    ]
