-- ===== src/Peers.antt =====
-- route/v1/file.go: the peers of the file drop, CenterHandler with the sessions of its clients, and
-- which rows of the peer table are dropped.
--
-- A client is a pointer to a session, here a number. What the object behind it holds is kept by that
-- number: the peer id it was made with, which never changes, its last heartbeat and whether it was
-- superseded. Times are in seconds. Only the goroutine `monitoring` reads and writes the map of the
-- clients, one message after the other. `sent` are the messages peer-left, the last one first,
-- each with the sessions that it goes to. `announcing` are the sessions whose goroutine has
-- found that they were not superseded, and whose peer-left `monitoring` has yet to take up. `ended`
-- are the sessions that `monitoring` has taken up from `unregister` or has kicked out.
pub mod Sessions
pub mod Late
pub mod Stale
pub mod Examples
use nimo_os.Base.{
  ℕ, zero, suc, ◌+◌, ◌-◌, Bool, true, false, not, ◌&&◌, ◌||◌, List, [], ◌∷◌, ◌++◌, map, Option,
  none, some, any, length, ltb, select, ◌==◌, if◌then◌else◌,
}
use nimo_os.Text.{Text, eqb}
use nimo_os.Maps.{Map, lookup, delete, put}

pub record Client : Type 0 where
  pub session : ℕ
  pub id : Text

pub record Center : Type 0 where
  pub clients : Map ℕ
  pub superseded : List ℕ
  pub ended : List ℕ
  pub last_beat : List (ℕ × ℕ)
  pub sent : List (Text × List ℕ)
  pub announcing : List Client

abbrev pub empty_center : Center
empty_center = record {
  clients = [];
  superseded = [];
  ended = [];
  last_beat = [];
  sent = [];
  announcing = [];
}

abbrev pub in_list : ℕ → List ℕ → Bool
in_list s ss = any (λ t. t == s) ss

abbrev pub beat_of : ℕ → List (ℕ × ℕ) → ℕ
beat_of s [] = 0
beat_of s ((t, b) ∷ bs) = if t == s then b else beat_of s bs

unfoldable pub touch_last_beat : ℕ → ℕ → Center → Center
touch_last_beat s now h = record h { last_beat = (s, now) ∷ h.last_beat }

unfoldable pub is_superseded : ℕ → Center → Bool
is_superseded s h = in_list s h.superseded

abbrev pub replaced_by : ℕ → Option ℕ → Option ℕ
replaced_by s none = none
replaced_by s (some t) = if t == s then none else some t

abbrev pub mark_superseded : Option ℕ → List ℕ → List ℕ
mark_superseded none ss = ss
mark_superseded (some t) ss = t ∷ ss

-- The center and the session that was replaced.
unfoldable pub register_client : Client → Center → Center × Option ℕ
register_client c h =
    let old = replaced_by c.session (lookup c.id h.clients) in
    (
      record h {
        clients = put c.id c.session h.clients;
        superseded = mark_superseded old h.superseded;
      },
      old,
    )

abbrev pub is_session : ℕ → Option ℕ → Bool
is_session s none = false
is_session s (some t) = t == s

unfoldable pub unregister_client : Client → Center → Center × Bool
unregister_client c h =
    if is_session c.session (lookup c.id h.clients)
    then (record h { clients = delete c.id h.clients }, true)
    else (h, false)

abbrev pub sessions : Map ℕ → List ℕ
sessions [] = []
sessions ((id, s) ∷ m) = s ∷ sessions m

-- The end of readPump, on an error or a message `disconnect`, in its steps. First the goroutine of the
-- session tests whether it was superseded, and then waits to hand peer-left to the broadcast.
unfoldable pub test_left : Client → Center → Center
unfolding is_superseded
test_left c h = if is_superseded c.session h then h else record h { announcing = c ∷ h.announcing }

-- `monitoring` takes this message up.
unfoldable pub announce_left : Client → Center → Center
announce_left c h = record h {
  announcing = select (λ d. not (d.session == c.session)) h.announcing;
  sent = (c.id, sessions h.clients) ∷ h.sent;
}

-- `monitoring` takes up a session from `unregister`, where the deferred end of readPump and of
-- writePump and a message `disconnect` put it. The session closes its connection behind that.
unfoldable pub end_session : Client → Center → Center
unfolding unregister_client
end_session c h = record (unregister_client c h).0 { ended = c.session ∷ h.ended }

abbrev pub heartbeat_timeout : ℕ
heartbeat_timeout = 90

-- now.Sub(lastBeat) > timeout
abbrev pub is_timed_out : ℕ → ℕ → ℕ → Bool
is_timed_out now timeout last = ltb (last + timeout) now

unfoldable pub stale_client_ids : Map ℕ → ℕ → ℕ → List Text
stale_client_ids [] now timeout = []
stale_client_ids ((id, last) ∷ m) now timeout =
    if is_timed_out now timeout last
    then id ∷ stale_client_ids m now timeout
    else stale_client_ids m now timeout

abbrev pub snapshot : List (ℕ × ℕ) → Map ℕ → Map ℕ
snapshot beats [] = []
snapshot beats ((id, s) ∷ m) = (id, beat_of s beats) ∷ snapshot beats m

abbrev pub kick_found : Text → Option ℕ → Center → Center
kick_found id none h = h
kick_found id (some s) h =
    let rest = delete id h.clients in
    record h { clients = rest; ended = s ∷ h.ended; sent = (id, sessions rest) ∷ h.sent }

unfoldable pub kick_ids : List Text → Center → Center
kick_ids [] h = h
kick_ids (id ∷ ids) h = kick_ids ids (kick_found id (lookup id h.clients) h)

unfoldable pub kick_stale_clients : ℕ → Center → Center
kick_stale_clients now h =
    kick_ids (stale_client_ids (snapshot h.last_beat h.clients) now heartbeat_timeout) h

-- ids[i]
abbrev pub at : List Text → ℕ → Text
at [] i = []
at (x ∷ xs) zero = x
at (x ∷ xs) (suc i) = at xs i

-- The loop of kickoutIDs below an index, with the number of the rows that still have to go.
unfoldable pub kickout_below : List Text → (Text → Bool) → Text → ℕ → ℕ → List Text
kickout_below ids is_online arriving zero remaining = []
kickout_below ids is_online arriving (suc i) remaining =
    let skip = eqb (at ids i) arriving || is_online (at ids i) in
    let rest = kickout_below ids is_online arriving i (if skip then remaining else remaining - 1) in
    if remaining == 0 then [] else if skip then rest else at ids i ∷ rest

unfoldable pub kickout_ids : List Text → (Text → Bool) → Text → ℕ → List Text
kickout_ids ids is_online arriving keep =
    kickout_below ids is_online arriving (length ids) (length ids - keep)
