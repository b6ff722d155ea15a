-- ===== src/Net/Channel.antt =====
-- A channel and its registration with epoll: mytinyhttpd/net/channel.h, channel.cc,
-- epoll_poller.cc and poller.cc. The events that the code sets are reading and writing. The map of
-- channels and epoll's own table are functions of the descriptor; adding a descriptor twice and
-- changing one that is not there are fatal errors.
pub mod Registered
use my_tiny_httpd.Prelude.{
  ℕ, Bool, true, false, not, ◌&&◌, ◌||◌, List, [], ◌∷◌, ◌++◌, Option, none, some, Outcome, ok,
  fault, assertion, ◌>>=◌, ◌>>◌, assert, ◌==◌, if◌then◌else◌,
}

pub data Status : Type 0 where
  new added deleted : Status

pub record Channel : Type 0 where
  pub fd : ℕ
  pub reading : Bool
  pub writing : Bool
  pub status : Status
  pub is_added_to_loop : Bool

-- `has_channel fd`: the map has this channel at `fd`. `interest fd`: what epoll watches there.
pub record Poller : Type 0 where
  pub has_channel : ℕ → Bool
  pub interest : ℕ → Option (Bool × Bool)

abbrev pub new_channel : ℕ → Channel
new_channel fd = record {
  fd = fd;
  reading = false;
  writing = false;
  status = new;
  is_added_to_loop = false;
}

abbrev pub is_none_event : Channel → Bool
is_none_event c = not c.reading && not c.writing

abbrev pub set_at {ℓ} : {A : Type ℓ} → ℕ → A → (ℕ → A) → ℕ → A
set_at fd a f fd' = if fd' == fd then a else f fd'

abbrev pub is_watched : Option (Bool × Bool) → Bool
is_watched none = false
is_watched (some events) = true

-- `Update(EPOLL_CTL_ADD, channel)`, and with `EPOLL_CTL_MOD` and `EPOLL_CTL_DEL`.
abbrev pub control_add : Channel → Poller → Outcome Poller
control_add c p =
    assert (not (is_watched (p.interest c.fd)))
    >> ok (record p { interest = set_at c.fd (some (c.reading, c.writing)) p.interest })

abbrev pub control_mod : Channel → Poller → Outcome Poller
control_mod c p =
    assert (is_watched (p.interest c.fd))
    >> ok (record p { interest = set_at c.fd (some (c.reading, c.writing)) p.interest })

abbrev pub control_del : Channel → Poller → Poller
control_del c p = record p { interest = set_at c.fd none p.interest }

-- `EPollPoller::UpdateChannel`, by the status of the channel.
abbrev pub update_channel : Status → Channel → Poller → Outcome (Channel × Poller)
update_channel new c p =
    assert (not (p.has_channel c.fd))
    >> control_add c (record p { has_channel = set_at c.fd true p.has_channel })
    >>= λ p'. ok (record c { status = added }, p')
update_channel deleted c p =
    assert (p.has_channel c.fd) >> control_add c p >>= λ p'. ok (record c { status = added }, p')
update_channel added c p =
    assert (p.has_channel c.fd)
    >> (if is_none_event c
        then ok (record c { status = deleted }, control_del c p)
        else (control_mod c p >>= λ p'. ok (c, p')))

abbrev pub is_new : Status → Bool
is_new new = true
is_new _ = false

abbrev pub is_added : Status → Bool
is_added added = true
is_added _ = false

-- `EPollPoller::RemoveChannel`.
abbrev pub remove_channel : Channel → Poller → Outcome (Channel × Poller)
remove_channel c p =
    assert (p.has_channel c.fd)
    >> assert (is_none_event c)
    >> assert (not (is_new c.status))
    >> (let p' = record p { has_channel = set_at c.fd false p.has_channel } in
        ok (record c { status = new }, if is_added c.status then control_del c p' else p'))

-- `Update`.
abbrev pub update : Channel → Poller → Outcome (Channel × Poller)
update c p = update_channel c.status (record c { is_added_to_loop = true }) p

-- `Remove`.
abbrev pub remove : Channel → Poller → Outcome (Channel × Poller)
remove c p = assert (is_none_event c) >> remove_channel (record c { is_added_to_loop = false }) p

-- What the owner of a channel asks for.
pub data Request : Type 0 where
  enable_reading disable_reading enable_writing disable_writing disable_all removal : Request

abbrev pub apply : Request → Channel → Channel
apply enable_reading c = record c { reading = true }
apply disable_reading c = record c { reading = false }
apply enable_writing c = record c { writing = true }
apply disable_writing c = record c { writing = false }
apply disable_all c = record c { reading = false; writing = false }
apply removal c = c

abbrev pub is_removal : Request → Bool
is_removal removal = true
is_removal _ = false

abbrev pub request : Request → Channel → Poller → Outcome (Channel × Poller)
request r c p = if is_removal r then remove c p else update (apply r c) p

pub requests : List Request → Channel → Poller → Outcome (Channel × Poller)
requests [] c p = ok (c, p)
requests (r ∷ rs) c p = request r c p >>= λ (c', p'). requests rs c' p'

-- The events that epoll reports, and the callbacks that `HandleEventWithGuard` calls, in order,
-- where all are set.
pub record Events : Type 0 where
  pub pollin : Bool
  pub pollpri : Bool
  pub pollout : Bool
  pub pollhup : Bool
  pub pollrdhup : Bool
  pub pollerr : Bool
  pub pollnval : Bool

pub data Callback : Type 0 where
  close_callback error_callback read_callback write_callback : Callback

abbrev pub when : Bool → Callback → List Callback
when b f = if b then f ∷ [] else []

pub handle_event_with_guard : Events → List Callback
handle_event_with_guard e =
    when (e.pollhup && not e.pollin) close_callback
    ++ (when (e.pollerr || e.pollnval) error_callback
        ++ (when (e.pollin || (e.pollpri || e.pollrdhup)) read_callback
            ++ when e.pollout write_callback))

-- `HandleEvent`: a channel whose owner is gone calls nothing.
pub handle_event : Bool → Bool → Events → List Callback
handle_event is_tied is_alive e =
    if is_tied
    then (if is_alive then handle_event_with_guard e else [])
    else handle_event_with_guard e
