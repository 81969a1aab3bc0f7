-- ===== src/PlatformConfig.antt =====
-- platform_config.rs: the generators of an iOS plist and of an Android network security config.
pub mod Escape
pub mod Domains
use beanstream.Prelude.{
  ℕ, zero, suc, ◌+◌, ◌-◌, ◌*◌, ◌/◌, ◌%◌, ◌^◌, ◌≤◌, ◌<◌, min, max, code, String, ◌≡◌, refl, sym, ap,
  subst, ◌∙◌, ◌≢◌, ◌↔◌, ◌⊎◌, inl, inr, Bool, true, false, not, ◌&&◌, ◌||◌, Option, none, some, List,
  [], ◌∷◌, ◌++◌, map, reverse, arith, ltb, leb, ◌==◌, if◌then◌else◌, between, ==_iff, Bool-cases,
  Option-cases, length, any, all, find, keep, length-append, any-append, all-append, All, all_iff,
  All-keep, keep_of_All, keep_idempotent, All-append, All-map,
}
use beanstream.Text.{Str, codes, is_ascii_alphanumeric, starts_with, strip_prefix, is_some}
use beanstream.Error.{Result, ok, err, ◌>>=◌, ◌>>◌, invalid_configuration, about}
use beanstream.UrlValidation.Validate.{is_empty}

-- `str::replace` of a character
unfoldable pub replace : ℕ → Str → Str → Str
replace from to [] = []
replace from to (c ∷ s) = if c == from then to ++ replace from to s else c ∷ replace from to s

unfoldable pub xml_escape : Str → Str
unfolding replace
xml_escape value = replace b'\'' (codes "&apos;") (
    replace b'"' (codes "&quot;") (
      replace b'>' (codes "&gt;")
        (replace b'<' (codes "&lt;") (replace b'&' (codes "&amp;") value))))

pub record AtsException : Type 0 where
  pub domain : Str
  pub allows_arbitrary_loads : Bool
  pub allows_insecure_httptls : Bool

unfoldable pub is_ats_domain : Str → Bool
is_ats_domain domain =
    not (is_empty domain) && all (λ c. is_ascii_alphanumeric c || c == b'.' || c == b'-') domain

unfoldable pub is_network_domain : Str → Bool
is_network_domain domain =
    not (is_empty domain)
    && all (λ c. is_ascii_alphanumeric c || c == b'.' || c == b'-' || c == b'*') domain

abbrev boolean_tag : Bool → Str
boolean_tag true = codes "<true/>"
boolean_tag false = codes "<false/>"

-- The entry of one exception.
unfoldable pub ats_entry : AtsException → Str
unfolding xml_escape
ats_entry e =
    codes "        <key>"
    ++ xml_escape e.domain
    ++ codes
        "</key>\n        <dict>\n            <key>NSExceptionAllowsInsecureHTTPLoads</key>\n            "
    ++ boolean_tag e.allows_insecure_httptls
    ++ codes
        "\n            <key>NSIncludesSubdomains</key>\n            <true/>\n            <key>NSExceptionMinimumTLSVersion</key>\n            <string>TLSv1.2</string>\n            <key>NSAllowsArbitraryLoads</key>\n            "
    ++ boolean_tag e.allows_arbitrary_loads
    ++ codes "\n        </dict>\n"

-- The loop over the exceptions: it stops at the first domain that is not accepted.
unfoldable pub ats_entries : List AtsException → Result Str
ats_entries [] = ok []
ats_entries (e ∷ exceptions) =
    let rest = ats_entries exceptions in
    if is_ats_domain e.domain
    then (rest >>= λ entries. ok (ats_entry e ++ entries))
    else err (invalid_configuration (about "Invalid ATS exception domain: '{}'" (e.domain ∷ [])))

-- The document around the entries of the exception domains.
unfoldable pub ats_document : Str → Str
ats_document entries =
    codes
      "<?xml version=\"1.0\" encoding=\"UTF-8\"?>\n<!DOCTYPE plist PUBLIC \"-//Apple//DTD PLIST 1.0//EN\"\n    \"http://www.apple.com/DTDs/PropertyList-1.0.dtd\">\n<plist version=\"1.0\">\n<dict>\n    <key>NSAppTransportSecurity</key>\n    <dict>\n        <key>NSAllowsArbitraryLoads</key>\n        <false/>\n        <key>NSExceptionDomains</key>\n        <dict>\n"
    ++ entries
    ++ codes "        </dict>\n    </dict>\n</dict>\n</plist>"

unfoldable pub generate_ios_plist : List AtsException → Result Str
unfolding ats_entries ats_document
generate_ios_plist [] =
    ok (ats_document (codes "            <!-- Configure per-app exceptions -->\n"))
generate_ios_plist (e ∷ exceptions) =
    ats_entries (e ∷ exceptions) >>= λ entries. ok (ats_document entries)

-- `trim_start_matches("*.")`
unfoldable pub trim_wildcards : Str → Str
trim_wildcards [] = []
trim_wildcards (c ∷ []) = c ∷ []
trim_wildcards (c ∷ d ∷ s) =
    let rest = trim_wildcards s in if c == b'*' && d == b'.' then rest else c ∷ d ∷ s

-- The first loop, which checks the domains.
unfoldable pub check_domains : List Str → Result (Unit {0})
check_domains [] = ok tt
check_domains (domain ∷ domains) =
    let rest = check_domains domains in
    if is_network_domain domain
    then rest
    else err
        (invalid_configuration (about "Invalid network security domain: '{domain}'" (domain ∷ [])))

abbrev boolean_text : Bool → Str
boolean_text true = codes "true"
boolean_text false = codes "false"

unfoldable pub domain_config : Str → Str
unfolding xml_escape trim_wildcards
domain_config domain =
    codes
      "    <domain-config cleartextTrafficPermitted=\"false\">\n        <domain includeSubdomains=\""
    ++ boolean_text (starts_with (codes "*.") domain)
    ++ codes "\">"
    ++ xml_escape (trim_wildcards domain)
    ++ codes "</domain>\n    </domain-config>\n"

unfoldable pub domain_configs : List Str → Str
unfolding domain_config
domain_configs [] = []
domain_configs (domain ∷ domains) = domain_config domain ++ domain_configs domains

unfoldable pub generate_android_network_config : List Str → Result Str
unfolding check_domains domain_configs
generate_android_network_config pinned_domains = do
  check_domains pinned_domains
  ok (
      codes
        "<?xml version=\"1.0\" encoding=\"utf-8\"?>\n<network-security-config>\n    <base-config cleartextTrafficPermitted=\"false\">\n        <trust-anchors>\n            <certificates src=\"system\" />\n        </trust-anchors>\n    </base-config>\n"
      ++ domain_configs pinned_domains
      ++ codes "</network-security-config>")
