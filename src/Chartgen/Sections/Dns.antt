-- ===== src/Chartgen/Sections/Dns.antt =====
-- What `replaceCertificateDNSNames` makes of a list of service names.
use opendatahub_ai_gateway_o.Base.{false, List, [], ◌∷◌, ◌++◌, ◌≡◌, All}
use opendatahub_ai_gateway_o.Text.Lines.{has_char}
use opendatahub_ai_gateway_o.Text.{Text, codes, trim_space, trim_space_right, has_prefix, equal}

-- `<service>.<namespace>.svc<rest>`: no dot in the service and the namespace, no space at the end.
pub record DnsName : Type 0 where
  pub service : Text
  pub namespace : Text
  pub rest : Text
  pub service_has_no_dot : has_char b'.' service ≡ false
  pub namespace_has_no_dot : has_char b'.' namespace ≡ false
  pub rest_ends : trim_space_right rest ≡ rest

abbrev pub suffix : DnsName → Text
suffix d = codes "svc" ++ d.rest

-- The entry's line behind an indentation, and the line that the chart wants in its place.
abbrev pub entry_line : Text → DnsName → Text
entry_line indent d =
    indent ++ (codes "- " ++ (d.service ++ (b'.' ∷ (d.namespace ++ (b'.' ∷ suffix d)))))

abbrev pub chart_line : Text → DnsName → Text
chart_line indent d =
    indent ++ (codes "- " ++ (d.service ++ (codes ".{{ .Release.Namespace }}." ++ suffix d)))

full_name : DnsName → Text
full_name d = d.service ++ (b'.' ∷ (d.namespace ++ (b'.' ∷ suffix d)))

abbrev pub NoDnsNames : Text → Type 0
NoDnsNames line = equal (trim_space line) (codes "dnsNames:") ≡ false

-- The lines behind the list: none, or others that a line begins which is no list item and not blank.
abbrev pub IsBehindNames : List Text → Type 0
IsBehindNames [] = Unit
IsBehindNames (line ∷ lines) =
    (has_prefix (trim_space line) (codes "-") ≡ false)
    × (equal (trim_space line) [] ≡ false)
    × All NoDnsNames (line ∷ lines)
