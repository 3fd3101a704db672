-- ===== src/Model/Site.antt =====
-- internal/model/site.go, domain_change.go and php_version.go: a site and the changes of it, with
-- their validation. `url.Parse` is an argument.
use wpx.Prelude.{
  ℕ, ◌+◌, String, Bool, true, false, not, ◌&&◌, ◌||◌, Option, none, some, List, [], ◌∷◌, ltb, leb,
  ◌==◌, ◌=?◌, if◌then◌else◌, map,
}
use wpx.Text.{
  Text, ◌=ᵗ◌, codes, length, contains, split, all, trim_space, trim_suffix, to_lower, lower_rune,
  is_alphanumeric,
}
use wpx.Stamp.{Stamp}
use wpx.Model.SiteId.{valid_site_id}

pub data SiteKind : Type 0 where
  word_press php python static reverse_proxy : SiteKind
  other_kind : String → SiteKind

pub data SiteStatus : Type 0 where
  queued active failed : SiteStatus
  disabling disabled disable_failed enabling enable_failed : SiteStatus
  php_changing php_change_failed : SiteStatus
  domain_changing domain_change_failed deleting delete_failed : SiteStatus

pub data TlsStatus : Type 0 where
  not_configured tls_queued tls_active tls_failed : TlsStatus

pub data Environment : Type 0 where
  unset production staging : Environment
  other_environment : String → Environment

pub data Multisite : Type 0 where
  multisite_disabled subdirectories subdomains : Multisite
  other_multisite : String → Multisite

-- sites, as `model.Site`; an empty `ParentSiteID` is `none`.
pub record Site : Type 0 where
  pub id : String
  pub domain : Text
  pub kind : SiteKind
  pub php_version : String
  pub upstream : String
  pub allow_eol : Bool
  pub status : SiteStatus
  pub tls_status : TlsStatus
  pub environment : Environment
  pub parent_site_id : Option String
  pub redis_enabled : Bool
  pub fastcgi_cache_enabled : Bool
  pub wordpress_multisite : Multisite
  pub created_at : Stamp
  pub updated_at : Stamp

pub record DomainChange : Type 0 where
  pub previous_domain : Text
  pub domain : Text
  pub previous_tls_status : TlsStatus

pub record PhpVersionChange : Type 0 where
  pub previous_version : String
  pub version : String
  pub allow_eol : Bool

-- What `url.Parse` returns, as far as it is read.
pub record Url : Type 0 where
  pub scheme : String
  pub host : String
  pub has_user : Bool
  pub fragment : String

abbrev pub is_word_press : SiteKind → Bool
is_word_press word_press = true
is_word_press _ = false

abbrev pub is_reverse_proxy : SiteKind → Bool
is_reverse_proxy reverse_proxy = true
is_reverse_proxy _ = false

-- `Kind == WordPress || Kind == PHP`
abbrev pub runs_php : SiteKind → Bool
runs_php word_press = true
runs_php php = true
runs_php _ = false

unfoldable pub valid_site_kind : SiteKind → Bool
valid_site_kind (other_kind _) = false
valid_site_kind _ = true

unfoldable pub is_eol_php : String → Bool
is_eol_php v = v =? "7.1" || v =? "7.2" || v =? "7.3" || v =? "7.4" || v =? "8.0" || v =? "8.1"

-- The texts that the two loops compare with.
unfoldable pub valid_php_version : String → Bool
valid_php_version v =
    v =? "8.0"
    || v =? "8.1"
    || v =? "8.2"
    || v =? "8.3"
    || v =? "8.4"
    || v =? "8.5"
    || v =? "7.1"
    || v =? "7.2"
    || v =? "7.3"
    || v =? "7.4"

-- A rune of (?i:[a-z0-9]). Folding the case of a class adds the long s and the Kelvin sign.
abbrev pub is_folded_alphanumeric : ℕ → Bool
is_folded_alphanumeric c =
    is_alphanumeric c || (leb b'A' c && leb c b'Z') || c == 0x17f || c == 0x212a

abbrev last_alphanumeric : Text → Bool
last_alphanumeric [] = true
last_alphanumeric (c ∷ []) = is_folded_alphanumeric c
last_alphanumeric (c ∷ (d ∷ t)) = last_alphanumeric (d ∷ t)

-- (?i:[a-z0-9](?:[a-z0-9-]{0,61}[a-z0-9])?)
unfoldable pub is_domain_label : Text → Bool
unfolding all
is_domain_label [] = false
is_domain_label (c ∷ t) =
    is_folded_alphanumeric c
    && all (λ d. is_folded_alphanumeric d || d == b'-') t
    && last_alphanumeric t
    && leb (length t) 62

unfoldable pub all_domain_labels : List Text → Bool
unfolding is_domain_label
all_domain_labels [] = true
all_domain_labels (l ∷ ls) = is_domain_label l && all_domain_labels ls

-- domainPattern: at least two labels, with dots between them
unfoldable pub matches_domain : Text → Bool
unfolding all_domain_labels split
matches_domain t = all_domain_labels (split b'.' t) && leb 2 (length (split b'.' t))

-- `normalizedSiteDomain` of internal/store/site_changes.go, and the same chain of calls here
unfoldable pub normalized_domain : Text → Text
unfolding to_lower trim_suffix trim_space
normalized_domain domain = to_lower (trim_suffix b'.' (trim_space domain))

unfoldable pub valid_domain : Text → Bool
unfolding matches_domain normalized_domain
valid_domain domain = matches_domain (normalized_domain domain)

abbrev environment_valid : Environment → Bool
environment_valid (other_environment _) = false
environment_valid _ = true

abbrev pub is_staging : Environment → Bool
is_staging staging = true
is_staging _ = false

abbrev multisite_valid : Multisite → Bool
multisite_valid (other_multisite _) = false
multisite_valid _ = true

abbrev pub is_multisite : Multisite → Bool
is_multisite multisite_disabled = false
is_multisite _ = true

abbrev parent_valid : String → Option String → Bool
parent_valid id none = false
parent_valid id (some parent) = valid_site_id parent && not (parent =? id)

abbrev pub is_none {ℓ} : {A : Type ℓ} → Option A → Bool
is_none none = true
is_none (some a) = false

-- The test on a reverse proxy's upstream; a line break is CR or LF.
abbrev upstream_valid : (String → Option Url) → String → Bool
upstream_valid parse_url upstream = elim (parse_url upstream) [
  | none ↦ false
  | some u ↦
      (u.scheme =? "http" || u.scheme =? "https")
      && not (u.host =? "")
      && not u.has_user
      && u.fragment =? ""
      && not (contains 13 (codes upstream))
      && not (contains 10 (codes upstream))
]

-- `ValidateSite(site) == nil`
unfoldable pub valid_site : (String → Option Url) → Site → Bool
unfolding valid_site_kind valid_php_version is_eol_php
valid_site parse_url site =
    valid_site_id site.id
    && valid_site_kind site.kind
    && environment_valid site.environment
    && (if is_staging site.environment
        then is_word_press site.kind && parent_valid site.id site.parent_site_id
        else is_none site.parent_site_id)
    && valid_domain site.domain
    && (if runs_php site.kind
        then valid_php_version site.php_version
          && (not (is_eol_php site.php_version) || site.allow_eol)
        else site.php_version =? "")
    && (if is_multisite site.wordpress_multisite
        then is_word_press site.kind && multisite_valid site.wordpress_multisite
        else true)
    && (if is_reverse_proxy site.kind
        then upstream_valid parse_url site.upstream
        else site.upstream =? "")

abbrev pub tls_index : TlsStatus → ℕ
tls_index not_configured = 0
tls_index tls_queued = 1
tls_index tls_active = 2
tls_index tls_failed = 3

-- The bytes of a text in UTF-8, of which a domain may have 253.
abbrev rune_bytes : ℕ → ℕ
rune_bytes c = if ltb c 0x80 then 1 else if ltb c 0x800 then 2 else if ltb c 0x10000 then 3 else 4

abbrev pub byte_length : Text → ℕ
byte_length [] = 0
byte_length (c ∷ t) = rune_bytes c + byte_length t

-- Of the runes that `domainPattern` accepts, the long s folds to `s` and lowers to itself.
abbrev simple_fold : ℕ → ℕ
simple_fold c = if c == 0x17f then b's' else lower_rune c

-- strings.EqualFold, on texts of runes that `domainPattern` accepts
abbrev equal_fold : Text → Text → Bool
equal_fold s t = map simple_fold s =ᵗ map simple_fold t

-- `ValidateDomainChange(site, change) == nil`
unfoldable pub valid_domain_change : (String → Option Url) → Site → DomainChange → Bool
valid_domain_change parse_url site change =
    valid_site parse_url site
    && change.previous_domain =ᵗ site.domain
    && tls_index change.previous_tls_status == tls_index site.tls_status
    && site.domain =ᵗ normalized_domain site.domain
    && leb (byte_length site.domain) 253
    && change.domain =ᵗ normalized_domain change.domain
    && valid_domain change.domain
    && leb (byte_length change.domain) 253
    && not (equal_fold change.domain (trim_suffix b'.' site.domain))
    && not (is_word_press site.kind && is_multisite site.wordpress_multisite)

-- `ValidatePHPVersionChange(site, change) == nil`
unfoldable pub valid_php_version_change : (String → Option Url) → Site → PhpVersionChange → Bool
valid_php_version_change parse_url site change =
    valid_site parse_url site
    && runs_php site.kind
    && change.previous_version =? site.php_version
    && not (change.version =? change.previous_version)
    && valid_site parse_url
        (record site { php_version = change.version; allow_eol = change.allow_eol })
