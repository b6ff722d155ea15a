-- ===== src/Net/Channel/Registered.antt =====
-- That mytinyhttpd/net/epoll_poller.cc and epoll's own table agree on each channel.
use my_tiny_httpd.Prelude.{ℕ, ◌≡◌, Bool, not, true, false, List, [], ◌∷◌, none, some}
use my_tiny_httpd.Net.Channel.{
  Channel, Poller, Status, new, added, deleted, is_new, is_removal, Request,
}

-- What the map and epoll hold at the descriptor of a channel, by its status.
abbrev pub Agrees : Status → Channel → Poller → Type 0
Agrees new c p = (p.has_channel c.fd ≡ false) × (p.interest c.fd ≡ none)
Agrees added c p = (p.has_channel c.fd ≡ true) × (p.interest c.fd ≡ some (c.reading, c.writing))
Agrees deleted c p = (p.has_channel c.fd ≡ true) × (p.interest c.fd ≡ none)

abbrev pub after_reading : Request → Bool → Bool
after_reading Request.enable_reading b = true
after_reading Request.disable_reading b = false
after_reading Request.disable_all b = false
after_reading _ b = b

abbrev pub after_writing : Request → Bool → Bool
after_writing Request.enable_writing b = true
after_writing Request.disable_writing b = false
after_writing Request.disable_all b = false
after_writing _ b = b

-- `Remove` may be asked only of a channel that is registered and watches nothing.
abbrev pub Allowed : Request → Bool → Bool → Bool → Type 0
Allowed Request.removal reading writing registered =
    (reading ≡ false) × (writing ≡ false) × (registered ≡ true)
Allowed _ reading writing registered = Unit {0}

abbrev pub AllAllowed : List Request → Bool → Bool → Bool → Type 0
AllAllowed [] reading writing registered = Unit {0}
AllAllowed (r ∷ rs) reading writing registered =
    Allowed r reading writing registered
    × AllAllowed rs (after_reading r reading) (after_writing r writing) (not (is_removal r))

-- The channel keeps its descriptor and agrees with the poller, which is the same elsewhere.
record Kept (fd other : ℕ) (p : Poller) (r : Channel × Poller) : Type 0 where
  agrees : Agrees r.0.status r.0 r.1
  same_fd : r.0.fd ≡ fd
  map_else : r.1.has_channel other ≡ p.has_channel other
  interest_else : r.1.interest other ≡ p.interest other

-- And it watches what it was last asked to watch.
record Next (fd other : ℕ) (p : Poller) (reading writing registered : Bool) (r : Channel × Poller)
    : Type 0 where
  kept : Kept fd other p r
  same_reading : r.0.reading ≡ reading
  same_writing : r.0.writing ≡ writing
  same_status : not (is_new r.0.status) ≡ registered
