-- ===== src/Examples/Requests.antt =====
-- The theorems about requests, applied to a request that is redirected once.
use beanstream.Prelude.{
  ℕ, ◌<◌, ◌≡◌, refl, sym, ap, ◌∙◌, ◌≢◌, inl, inr, true, false, Option, none, some, List, [], ◌∷◌,
  arith, Bool-cases, any, find, All,
}
use beanstream.Text.{Str, codes, str_eq, eq_ignore_ascii_case}
use beanstream.Error.{ok}
use beanstream.HeaderValidation.{Header, is_sensitive_header}
use beanstream.HeaderValidation.Laws.{IsPublic}
use beanstream.Response.{HttpResponse}
use beanstream.RedirectPolicy.Policy.{default_policy}
use beanstream.RedirectPolicy.Scope.{new_scope, allow_scope_host}
use beanstream.Retry.{default_retry}
use beanstream.ProxyConfig.{system}
use beanstream.Request.{HttpRequest, Method, post, refuse_forbidden, new, add_headers}
use beanstream.Request
use beanstream.Request.Exec.{Exec}
use beanstream.Request.World.{World, Outbound, RawResponse, received}
use beanstream.Request.Transport.{Exchange, send_target}
use beanstream.Request.Hop.{RedirectHop, plan_hop, rewrite_hop}
use beanstream.Request.Origin.{OriginLaws, AllKeepHome}
use beanstream.Request.Origin.Run.{execute_inner-AllKeepHome}
use beanstream.Text.Laws.{str_eq_iff}
use beanstream.Crates.{Parsed, parse_error}
use beanstream.Request.Chain.{follow_chain}
use beanstream.Request.Chain.Length.{plan_hop-new, follow_chain-total}
use beanstream.Request.Execute.{attempts, execute_inner}
use beanstream.Request.Execute.Retries.{IsLastAttempt, before_attempt, attempts-IsLastAttempt}
use beanstream.Request.Send.{
  Interceptor, logging_interceptor, auth_interceptor, new_auth, run_on_request, send, unfired,
}
use beanstream.Request.Send.Redacted.{send-IsPublic}
use beanstream.Request.Execute.{retries_left}
use beanstream.Request.Vetted.{AllVetted}
use beanstream.Request.Vetted.Run.{execute_inner-AllVetted}
use beanstream.RedirectPolicy.Pattern.{matches_host_pattern, matches_normalized, normalize_host}
use beanstream.RedirectPolicy.Policy.{matches_any, check_redirect, check_hosts, is_downgrade}
use beanstream.RedirectPolicy.Scope.{check_url, check_scope_host}
use beanstream.UrlValidation.Validate.{parse_url}
use beanstream.HeaderValidation.{
  sanitize_header, validate_header_name, validate_header_value, validate_headers,
}
use beanstream.Cache.{default_config, get_response, is_expired, cache_key}
use beanstream.Cache.Entries.{get}
use beanstream.Response.{redact}
use beanstream.Request.{validate, add_header}
use beanstream.Request.Hop.{validate_hop}
use beanstream.Request.Execute.{lookup_cache, read_cache, serve_hit}
use beanstream.Request.Send.{run_on_response, run_with_signal}
use beanstream.Examples.Urls.{request-valid}
use beanstream.Examples.{
  KnownUrl, known_urls, look_up, answer, crates, proxies, env, request, start, home, moved, token,
}

same_site : crates.same_origin home home ≡ true
unfolding str_eq
same_site = refl

other_site : crates.same_origin home moved ≡ false
unfolding str_eq
other_site = refl

abbrev first_answer : Exchange
first_answer = record {
  status = 302;
  headers = (codes "location", moved.text) ∷ [];
  body = [];
  url = home.text;
}

abbrev built : HttpRequest crates proxies
built = record request {
  headers = [];
  redirect_policy = default_policy;
  scope_validator = allow_scope_host home.name (new_scope true);
  retry = none;
  has_cache = false;
  proxy = system;
}

built_ok : new crates proxies Request.get home.text ≡ ok built
unfolding new
built_ok = rw request-valid refl

execute_inner-AllVetted_example :
    AllVetted crates proxies request (execute_inner crates proxies env request start).1
execute_inner-AllVetted_example =
    execute_inner-AllVetted crates proxies request env refl request-valid start tt

found-text :
    (text : Str) (urls : List KnownUrl) (u : KnownUrl)
    → find (λ v. str_eq v.text text) urls ≡ some u
    → u.text ≡ text
found-text text [] u h = absurd (cc h)
found-text text (v ∷ urls) u h = elim (Bool-cases (str_eq v.text text)) [
  | inl e ↦ let same : u ≡ v = ground arith in rw same ((str_eq_iff v.text text).0 e)
  | inr e ↦ found-text text urls u (rw e at h)
]

-- The client of the example answers for the URL that it was given.
answer-url :
    (before : List Outbound) (out : Outbound) (r : RawResponse)
    → answer before out ≡ received r
    → r.url ≡ out.target
answer-url before out r h = elim (Bool-cases (str_eq out.target home.text)) [
  | inl e ↦
      let same : r.url ≡ home.text = ground arith in
      same ∙ sym ((str_eq_iff out.target home.text).0 e)
  | inr e ↦ ground arith
]

origin_laws : OriginLaws crates env
origin_laws = record {
  same_origin_trans = λ a b c h k.
      let schemes = str_eq_iff a.scheme b.scheme in
      let names = str_eq_iff a.name b.name in ground (arith, schemes, names);
  parse-as_str = λ base u location h.
      let same : u.text ≡ location = found-text location known_urls u h in
      ap
        (λ (o : Option KnownUrl). elim o [
          | some v ↦ Parsed.parsed v
          | none ↦ parse_error (codes "unknown")
        ])
        (ap look_up same ∙ h);
  answers_for_target = λ before out r h. ap crates.parse (answer-url before out r h);
}

execute_inner-AllKeepHome_example :
    AllKeepHome crates proxies request env (execute_inner crates proxies env request start).1
execute_inner-AllKeepHome_example =
    execute_inner-AllKeepHome crates proxies request env origin_laws start tt

follow_chain-total_example :
    (follow_chain crates proxies env request none first_answer start).0 ≢ ok none
follow_chain-total_example = follow_chain-total crates proxies request env none first_answer start

abbrev planned : RedirectHop crates proxies
planned = rewrite_hop crates proxies request moved home 302 Request.get (token ∷ []) none

a_matches : matches_any (codes "a.com" ∷ codes "b.com" ∷ []) (codes "a.com") ≡ true
unfolding matches_any matches_host_pattern matches_normalized str_eq normalize_host
    beanstream.Text.to_ascii_lowercase beanstream.Text.trim_end_matches beanstream.Text.trim
    beanstream.Text.is_whitespace beanstream.Text.lower_char beanstream.Text.strip_prefix
    beanstream.Text.strip_suffix
a_matches = refl

home_accepted : check_redirect crates request.redirect_policy (moved ∷ []) home ≡ ok tt
unfolding check_redirect check_hosts is_downgrade str_eq matches_any
home_accepted = rw a_matches refl

home_in_scope : check_url crates request.scope_validator home.text ≡ ok tt
unfolding check_url check_scope_host parse_url str_eq matches_any
home_in_scope = rw a_matches refl

hop_valid : validate_hop crates proxies request (moved ∷ []) home ≡ ok tt
unfolding validate_hop
hop_valid = rw (home_accepted, request-valid, home_in_scope) refl

hop_planned :
    plan_hop crates proxies request (moved ∷ []) moved 302 home.text Request.get (token ∷ []) none
    ≡ ok planned
unfolding plan_hop str_eq
hop_planned = rw hop_valid refl

plan_hop-new_example :
    (1 < request.redirect_policy.max_redirects)
    × (any (λ seen. crates.url_eq seen planned.url) (moved ∷ []) ≡ false)
plan_hop-new_example =
    plan_hop-new crates proxies request (moved ∷ []) moved 302 home.text Request.get (token ∷ [])
      none planned hop_planned

abbrev sender : Exec World Exchange
sender = send_target crates proxies env request none Request.get request.url [] none none

attempts-IsLastAttempt_example :
    (k : ℕ) × IsLastAttempt env default_retry sender 3 k start
    × (attempts env (some default_retry) (retries_left (some default_retry)) sender start
        ≡ sender (before_attempt env default_retry sender k start))
attempts-IsLastAttempt_example = attempts-IsLastAttempt env default_retry sender (λ w. refl) start

abbrev authorize : Interceptor crates proxies
authorize = auth_interceptor crates proxies (new_auth (codes "t"))

abbrev logging : Interceptor crates proxies
logging = logging_interceptor crates proxies

abbrev extended : HttpRequest crates proxies
extended = record built { headers = (codes "x-a", codes "b") ∷ [] }

extended_ok : add_headers crates proxies ((codes "X-A", codes " b") ∷ []) built ≡ ok extended
unfolding add_headers add_header sanitize_header validate_header_name validate_header_value
    beanstream.Text.trim beanstream.Text.trim_end_matches beanstream.Text.is_whitespace
    beanstream.Text.is_control beanstream.HeaderValidation.is_blocked_header eq_ignore_ascii_case
    str_eq beanstream.Text.to_ascii_lowercase beanstream.Text.lower_char
extended_ok = refl

request_ok : validate crates proxies request ≡ ok tt
unfolding validate validate_headers refuse_forbidden validate_header_name beanstream.Text.trim
    beanstream.Text.trim_end_matches beanstream.Text.is_whitespace validate_header_value
    beanstream.Text.is_control beanstream.HeaderValidation.is_blocked_header eq_ignore_ascii_case
    str_eq beanstream.Text.to_ascii_lowercase beanstream.Text.lower_char
request_ok = rw home_in_scope refl

abbrev stored : HttpResponse
stored = record {
  status = 200;
  headers = (codes "set-cookie", codes "c") ∷ (codes "x-a", codes "b") ∷ [];
  body = 1 ∷ [];
  url = home.text;
}

abbrev warm : World
warm = record start {
  cache = record {
    config = default_config;
    entries =
        (
          codes "GET https://a.com/x",
          record { response = stored; stored_at = 0; ttl = 10; etag = none },
        )
        ∷ [];
  };
}

hit : (get_response 0 (codes "GET") home.text warm.cache).0 ≡ some stored
unfolding get_response is_expired get str_eq cache_key beanstream.Text.to_ascii_uppercase
    beanstream.Text.upper_char
hit = refl

served : (execute_inner crates proxies env request warm).0 ≡ ok stored
unfolding execute_inner lookup_cache read_cache serve_hit beanstream.Request.Execute.report
    beanstream.Request.Execute.acquire Request.is_get_or_head get_response get str_eq cache_key
    beanstream.Text.to_ascii_uppercase Request.method_as_str beanstream.Text.upper_char is_expired
    beanstream.Request.Execute.report_complete
served = rw request_ok refl

sent : (send crates proxies env (logging ∷ []) request unfired warm).0 ≡ ok (redact stored)
unfolding send run_on_request run_on_response run_with_signal logging_interceptor
sent = rw served refl

send-IsPublic_example : All IsPublic (redact stored).headers
send-IsPublic_example =
    send-IsPublic crates proxies env (logging ∷ []) request unfired warm (redact stored) sent
