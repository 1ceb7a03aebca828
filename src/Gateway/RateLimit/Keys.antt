-- ===== src/Gateway/RateLimit/Keys.antt =====
-- The key of a request's bucket: what a client can and cannot choose.
use tube.Common.{
  ◌≡◌, ◌≢◌, refl, ap, sym, ◌∙◌, false, Option, List, [], ◌∷◌, ◌++◌, any, ◌==◌, text_eq,
}
use tube.Common.Text.{Text, codes}
use tube.Manifest.{RateLimitBy, identity, ip, global}
use tube.Gateway.RateLimit.{Request, address_key, resolve_key, or_text, header_text, user_or}

-- The address of the connection, as the code reads it.
abbrev pub socket_of : Request → Text
socket_of r = or_text (header_text r.socket) (codes "unknown")

address_key_untrusted :
    (trusted : List Text) (r : Request)
    → any (λ t. t == socket_of r) trusted ≡ false
    → address_key trusted r ≡ codes "ip:" ++ socket_of r
unfolding address_key
address_key_untrusted trusted r h = rw h refl

unheard :
    (trusted : List Text) (r : Request) (forwarded real : Option Text)
    → any (λ t. t == socket_of r) trusted ≡ false
    → address_key trusted (record r { forwarded_for = forwarded; real_ip = real })
      ≡ address_key trusted r
unheard trusted r forwarded real h =
    address_key_untrusted trusted (record r { forwarded_for = forwarded; real_ip = real }) h
    ∙ sym (address_key_untrusted trusted r h)

user_or_shared : (u : Text) (k k' : Text) → u ≢ [] → user_or u k ≡ user_or u k'
unfolding user_or
user_or_shared [] k k' h = absurd (h refl)
user_or_shared (c ∷ u) k k' h = refl

-- A client that does not connect from a trusted proxy cannot choose its bucket by the headers
-- `x-forwarded-for` and `x-real-ip`: with other headers the key is the same, for every strategy.
pub resolve_key_untrusted :
    (trusted : List Text) (r : Request) (forwarded real : Option Text) (by : RateLimitBy)
    → any (λ t. t == socket_of r) trusted ≡ false
    → resolve_key trusted (record r { forwarded_for = forwarded; real_ip = real }) by
      ≡ resolve_key trusted r by
unfolding resolve_key
resolve_key_untrusted trusted r forwarded real global h = refl
resolve_key_untrusted trusted r forwarded real ip h = unheard trusted r forwarded real h
resolve_key_untrusted trusted r forwarded real identity h =
    ap (user_or r.user_id) (unheard trusted r forwarded real h)

-- An authenticated caller has one bucket for each function by identity, from whatever address and
-- with whatever headers; `global` is one bucket for all.
pub resolve_key_shared :
    (trusted trusted' : List Text) (r r' : Request)
    → r.user_id ≡ r'.user_id
    → r.user_id ≢ []
    → (resolve_key trusted r identity ≡ resolve_key trusted' r' identity)
      × (resolve_key trusted r global ≡ resolve_key trusted' r' global)
unfolding resolve_key
resolve_key_shared trusted trusted' r r' same user = (
  user_or_shared r.user_id (address_key trusted r) (address_key trusted' r') user
      ∙ ap (λ u. user_or u (address_key trusted' r')) same,
  refl,
)
