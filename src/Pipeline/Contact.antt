-- ===== src/Pipeline/Contact.antt =====
-- Extracted contacts and the tests on them: internal/extract/contacts.go, internal/filter
-- (source_gates.go, forum_gates.go, serp_gates.go) and internal/pipeline/processor.go. What the
-- validators say of a value (`validate.IsRoleEmail`, `validate.IsBlacklisted`) is an argument.
use Prim.Native.Char.{code}
use bidshard_lead_miner.Common.{
  ℕ, Bool, true, false, ◌&&◌, ◌||◌, not, List, [], ◌∷◌, Option, none, some, String, leb, ◌==◌,
  if◌then◌else◌,
}

-- The types that the code tells apart; `other` is any other.
pub data Kind : Type 0 where
  email telegram skype forum_user github reddit telegram_user_id : Kind
  jobboard_company domain review other : Kind

pub record Contact : Type 0 where
  pub kind : Kind
  pub value : String

-- `unicode.IsSpace`
is_space : ℕ → Bool
is_space c =
    (leb 9 c && leb c 13)
    || c == 0x20
    || c == 0x85
    || c == 0xA0
    || c == 0x1680
    || (leb 0x2000 c && leb c 0x200A)
    || c == 0x2028
    || c == 0x2029
    || c == 0x202F
    || c == 0x205F
    || c == 0x3000

-- `strings.TrimSpace(s) == ""`
unfoldable pub is_blank : String → Bool
unfolding is_space
is_blank String.[] = true
is_blank (String.◌∷◌ c s) = is_space (code c) && is_blank s

-- The kinds of an outreach handle.
abbrev pub is_outreach : Kind → Bool
is_outreach email = true
is_outreach telegram = true
is_outreach skype = true
is_outreach _ = false

-- The kinds of a profile that may be resolved to a handle.
abbrev pub is_profile : Kind → Bool
is_profile forum_user = true
is_profile github = true
is_profile reddit = true
is_profile telegram_user_id = true
is_profile _ = false

-- The kinds of a company or domain seed.
abbrev pub is_seed : Kind → Bool
is_seed jobboard_company = true
is_seed domain = true
is_seed review = true
is_seed _ = false

abbrev pub is_email : Kind → Bool
is_email email = true
is_email _ = false

unfoldable pub has_reachable_contact : List Contact → Bool
has_reachable_contact [] = false
has_reachable_contact (c ∷ cs) =
    (is_outreach c.kind && not (is_blank c.value)) || has_reachable_contact cs

unfoldable pub has_enrichable_identity : List Contact → Bool
has_enrichable_identity [] = false
has_enrichable_identity (c ∷ cs) =
    (is_profile c.kind && not (is_blank c.value)) || has_enrichable_identity cs

all_seeds : List Contact → Bool
all_seeds [] = true
all_seeds (c ∷ cs) = is_seed c.kind && all_seeds cs

abbrev pub is_empty : List Contact → Bool
is_empty [] = true
is_empty (_ ∷ _) = false

unfoldable pub intel_only_contacts : List Contact → Bool
unfolding all_seeds
intel_only_contacts cs = not (is_empty cs) && all_seeds cs

-- `LanderRequiresEmailOrSkype`
unfoldable pub has_email_or_skype : List Contact → Bool
has_email_or_skype [] = false
has_email_or_skype (c ∷ cs) = elim c.kind [
  | email ↦ true
  | skype ↦ true
  | _ ↦ has_email_or_skype cs
]

abbrev is_forum_user : Kind → Bool
is_forum_user forum_user = true
is_forum_user _ = false

-- `ForumHasForumUserContact`
unfoldable pub has_forum_user_contact : List Contact → Bool
has_forum_user_contact [] = false
has_forum_user_contact (c ∷ cs) =
    (is_forum_user c.kind && not (is_blank c.value)) || has_forum_user_contact cs

has_forum_user : List Contact → Bool
has_forum_user [] = false
has_forum_user (c ∷ cs) = is_forum_user c.kind || has_forum_user cs

-- `SerpForumSnippetOnly` at a SERP source; `forum_host` says that its domain is a known forum.
unfoldable pub serp_forum_snippet_only : Bool → List Contact → Bool
unfolding has_forum_user
serp_forum_snippet_only forum_host cs = forum_host && not (has_forum_user cs)

-- `SerpHasReachableContact`; `placeholder` is `SerpPlaceholderContact` of the hint.
unfoldable pub serp_has_reachable_contact : Bool → List Contact → Bool
serp_has_reachable_contact placeholder cs =
    if has_reachable_contact cs || has_enrichable_identity cs
    then true
    else if placeholder
    then false
    else not (is_empty cs)

unfoldable pub has_email_contact : List Contact → Bool
has_email_contact [] = false
has_email_contact (c ∷ cs) = is_email c.kind || has_email_contact cs

abbrev is_messenger : Kind → Bool
is_messenger telegram = true
is_messenger skype = true
is_messenger _ = false

unfoldable pub has_direct_messenger_contact : List Contact → Bool
has_direct_messenger_contact [] = false
has_direct_messenger_contact (c ∷ cs) = is_messenger c.kind || has_direct_messenger_contact cs

-- `none` is the empty string.
unfoldable pub primary_email : List Contact → Option String
primary_email [] = none
primary_email (c ∷ cs) = elim (is_email c.kind) [ true ↦ some c.value | false ↦ primary_email cs ]

all_role_emails : (String → Bool) → List Contact → Bool
all_role_emails is_role [] = true
all_role_emails is_role (c ∷ cs) = is_email c.kind && is_role c.value && all_role_emails is_role cs

unfoldable pub only_role_emails : (String → Bool) → List Contact → Bool
unfolding all_role_emails
only_role_emails is_role cs = not (is_empty cs) && all_role_emails is_role cs

-- Whether a contact is an e-mail or a domain on the blacklists.
unfoldable pub blacklist_contact : (String → Bool) → (String → Bool) → List Contact → Bool
blacklist_contact bad_email bad_domain [] = false
blacklist_contact bad_email bad_domain (c ∷ cs) =
    let rest = blacklist_contact bad_email bad_domain cs in
    elim c.kind [
      | email ↦ if bad_email c.value then true else rest
      | domain ↦ if bad_domain c.value then true else rest
      | _ ↦ rest
    ]
