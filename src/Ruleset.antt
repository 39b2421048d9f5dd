-- ===== src/Ruleset.antt =====
-- Routing presets: core/internal/ruleset/ini.go (the parsed preset) and render.go. A compiled pattern
-- is the test of a name. Groups has
-- `resolveGroups`, and Urls is about `ListURLs`.
pub mod Groups
pub mod Urls
mod Examples
use Prim.Native.Char.{Char, code}
use chiral.Prelude.{
  ℕ, ◌-◌, Bool, true, false, ◌&&◌, ◌||◌, String, List, [], ◌∷◌, Option, none, some, leb, ◌==◌,
  if◌then◌else◌, str_eq, contains,
}
use chiral.Prelude.Int.{ℤ}
use chiral.Prelude.Text.{codes}

-- `GroupType`
pub data GroupType : Type 0 where
  select url_test fallback load_balance : GroupType

-- `Group`; `matches` is the test of `Match`.
pub record Group : Type 0 where
  pub name : String
  pub type : GroupType
  pub literals : List String
  pub matches : Option (String → Bool)
  pub match_source : String
  pub test_url : String
  pub interval : ℤ
  pub timeout : ℤ
  pub tolerance : ℤ

-- Where a rule comes from: `URL` if it is not empty, and else `Inline`.
pub record Rule : Type 0 where
  pub group : String
  pub url : String
  pub inline : String

pub record Config : Type 0 where
  pub groups : List Group
  pub rules : List Rule

-- `unicode.ToUpper` as far as it leads to a letter of ASCII: any other character stays, or goes to
-- one that is not ASCII either.
abbrev pub to_upper : ℕ → ℕ
to_upper c =
    if leb b'a' c && leb c b'z'
    then c - 32
    else if c == 0x131
    then b'I'
    else if c == 0x17f
    then b'S'
    else c

-- Whether `strings.ToUpper` of a text is the word, which is ASCII and in capitals.
abbrev pub upper_is : List ℕ → List ℕ → Bool
upper_is [] [] = true
upper_is [] (d ∷ w) = false
upper_is (c ∷ s) [] = false
upper_is (c ∷ s) (d ∷ w) = to_upper c == d && upper_is s w

-- `isBuiltinPolicy`
unfoldable pub is_builtin_policy : String → Bool
is_builtin_policy name =
    let s = codes name in
    upper_is s (codes "DIRECT")
    || upper_is s (codes "REJECT")
    || upper_is s (codes "REJECT-DROP")
    || upper_is s (codes "PASS")
    || upper_is s (codes "COMPATIBLE")

-- The loop of `ListURLs`, with the addresses that were seen.
abbrev pub fresh_urls : List String → List Rule → List String
fresh_urls seen [] = []
fresh_urls seen (r ∷ rules) = elim (str_eq r.url "" || contains seen r.url) [
  | true ↦ fresh_urls seen rules
  | false ↦ r.url ∷ fresh_urls (r.url ∷ seen) rules
]

-- `ListURLs`
unfoldable pub list_urls : Config → List String
list_urls c = fresh_urls [] c.rules
