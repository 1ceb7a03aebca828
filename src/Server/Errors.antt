-- ===== src/Server/Errors.antt =====
-- Whether a client may see the details of an error.
use tube.Common.{
  ℕ, Bool, true, false, ◌||◌, Option, none, some, List, [], ◌∷◌, any, take, if◌then◌else◌, ◌==◌,
  text_eq, ◌+◌,
}
use tube.Common.Text.{Text, codes, starts_with, ends_with, to_lower, index_of, split, trim}
use tube.Server.Reply.{Reply, reply}

pub record ErrorPolicy : Type 0 where
  pub override : Option Text
  pub is_dev : Bool
  pub extra_hosts : List Text

lowered_pieces : List Text → List Text
unfolding trim to_lower
lowered_pieces [] = []
lowered_pieces (s ∷ l) =
    let rest = lowered_pieces l in elim (to_lower (trim s)) [ [] ↦ rest | c ∷ t ↦ (c ∷ t) ∷ rest ]

-- `parseExtraExposeHosts`, of the value of `1TUBE_EXPOSE_ERROR_HOSTS`.
pub parse_extra_expose_hosts : Text → List Text
unfolding lowered_pieces split
parse_extra_expose_hosts raw = lowered_pieces (split b',' raw)

abbrev pub loopback_hosts : List Text
loopback_hosts = codes "127.0.0.1" ∷ codes "::1" ∷ codes "[::1]" ∷ codes "localhost" ∷ []

abbrev pub local_host_suffixes : List Text
local_host_suffixes = codes ".localhost" ∷ codes ".local" ∷ codes ".test" ∷ codes ".internal" ∷ []

unfoldable pub is_local_hostname : List Text → Text → Bool
unfolding to_lower starts_with ends_with
is_local_hostname extra hostname =
    let h = to_lower hostname in
    any (λ l. l == h) loopback_hosts
    || (starts_with (codes "127.") h
        || (any (λ suffix. ends_with suffix h) local_host_suffixes
            || any (λ e. h == e || ends_with (b'.' ∷ e) h) extra))

abbrev cut_before : Text → Option ℕ → Text
cut_before host none = host
cut_before host (some i) = take i host

abbrev cut_after : Text → Option ℕ → Text
cut_after host none = host
cut_after host (some i) = take (i + 1) host

-- `hostHeaderHostname`, of the value of the header, empty where it is absent.
unfoldable pub host_header_hostname : Text → Text
unfolding index_of starts_with
host_header_hostname host =
    if starts_with (codes "[") host
    then cut_after host (index_of b']' host)
    else cut_before host (index_of b':' host)

is_on : Text → Bool
is_on v = v == codes "1" || v == codes "true"

is_off : Text → Bool
is_off v = v == codes "0" || v == codes "false"

expose_by_host : ErrorPolicy → Text → Bool
unfolding is_local_hostname host_header_hostname
expose_by_host policy host =
    if policy.is_dev
    then is_local_hostname policy.extra_hosts (host_header_hostname host)
    else false

unfoldable pub should_expose_error_details : ErrorPolicy → Text → Bool
unfolding is_on is_off expose_by_host
should_expose_error_details policy host = elim policy.override [
  | none ↦ expose_by_host policy host
  | some v ↦ if is_on v then true else if is_off v then false else expose_by_host policy host
]

-- The 500 of an unhandled error. The message of the error is in the reply only where it may be seen.
unfoldable pub error_details : ErrorPolicy → Text → Text → Reply
unfolding should_expose_error_details
error_details policy host message =
    reply 500 (codes "Internal server error")
      (if should_expose_error_details policy host then message else [])
