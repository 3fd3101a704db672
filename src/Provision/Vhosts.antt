-- ===== src/Provision/Vhosts.antt =====
-- The two virtual hosts of a site: `inspectDomainVhost` and `writeDomainVhosts` of
-- internal/provision/domain_change.go.
use wpx.Prelude.{
  Bool, true, false, ◌&&◌, Option, none, some, List, [], ◌∷◌, ◌^◌, leb, if◌then◌else◌,
}
use wpx.Text.{Text, codes}
use wpx.Text.Search.{has_prefix}
use wpx.Model.Site.{byte_length}

-- `ownershipMarker`
abbrev pub ownership_marker : Text
ownership_marker = codes "# Managed by WPX. Manual changes will be replaced.\n"

-- `domainVhostState`
pub record Vhost : Type 0 where
  pub content : Text
  pub exists : Bool
  pub is_enabled : Bool

abbrev pub absent : Vhost
absent = record { content = []; exists = false; is_enabled = false }

-- The file among the available sites, and the link to it among the enabled ones.
pub record SiteFile : Type 0 where
  pub available : Option Text
  pub is_linked : Bool

-- What an inspection returns; a link without a file, and a file that is not managed or too long,
-- are errors.
unfoldable pub inspect_vhost : SiteFile → Option Vhost
inspect_vhost file = elim file.available [
  | none ↦ if file.is_linked then none else some absent
  | some content ↦
      if leb (byte_length content) (2 ^ 20) && has_prefix ownership_marker content
      then some (record { content = content; exists = true; is_enabled = file.is_linked })
      else none
]

-- The file that a state is written to.
abbrev pub file_of : Vhost → SiteFile
file_of v = record {
  available = if v.exists then some v.content else none;
  is_linked = v.is_enabled;
}

-- The single changes of a file on the way to a state.
abbrev pub put_content : Text → SiteFile → SiteFile
put_content content file = record file { available = some content }

abbrev pub put_link : Bool → SiteFile → SiteFile
put_link linked file = record file { is_linked = linked }

abbrev pub remove_file : SiteFile → SiteFile
remove_file file = record file { available = none }

abbrev pub writes : Vhost → List (SiteFile → SiteFile)
writes v =
    if v.exists
    then put_content v.content ∷ put_link v.is_enabled ∷ []
    else put_link v.is_enabled ∷ remove_file ∷ []
