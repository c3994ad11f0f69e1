-- ===== src/Peers/Stale.antt =====
-- The sweep of the sessions without a heartbeat.
use nimo_os.Base.{
  ℕ, ◌≡◌, refl, subst, ap, ◌∙◌, false, List, [], ◌∷◌, Option, none, some, arith, Bool-cases, inl,
  inr, if◌then◌else◌,
}
use nimo_os.Text.{Text, eqb, elem}
use nimo_os.Text.Laws.{eqb_iff, eqb→eq}
use nimo_os.Maps.{Map, lookup}
use nimo_os.Maps.Laws.{lookup-delete}
use nimo_os.Peers.{
  Client, Center, beat_of, heartbeat_timeout, is_timed_out, stale_client_ids, snapshot, kick_found,
  kick_ids, kick_stale_clients,
}
use nimo_os.Peers.Sessions.{IsReachable, reachable-IsLive, HasKeys}

kick_found-lookup :
    (id i : Text) (h : Center) (o : Option ℕ)
    → lookup id h.clients ≡ o
    → lookup i (kick_found id o h).clients ≡ (if eqb id i then none else lookup i h.clients)
kick_found-lookup id i h none e = ground (arith, eqb_iff id i)
kick_found-lookup id i h (some s) e = lookup-delete i id h.clients

kick_ids-lookup :
    (ids : List Text) (i : Text) (h : Center)
    → lookup i (kick_ids ids h).clients ≡ (if elem i ids then none else lookup i h.clients)
unfolding kick_ids elem
kick_ids-lookup [] i h = refl
kick_ids-lookup (id ∷ ids) i h =
    kick_ids-lookup ids i (kick_found id (lookup id h.clients) h)
    ∙ ap (λ x. if elem i ids then none else x) (kick_found-lookup id i h (lookup id h.clients) refl)
    ∙ ground arith

-- What is left of a session by its last heartbeat.
abbrev pub if_fresh : ℕ → List (ℕ × ℕ) → Option ℕ → Option ℕ
if_fresh now beats none = none
if_fresh now beats (some s) =
    if is_timed_out now heartbeat_timeout (beat_of s beats) then none else some s

unlisted :
    (now : ℕ) (beats : List (ℕ × ℕ)) (i : Text) (m : Map ℕ)
    → lookup i m ≡ none
    → elem i (stale_client_ids (snapshot beats m) now heartbeat_timeout) ≡ false
unfolding stale_client_ids elem lookup
unlisted now beats i [] h = refl
unlisted now beats i ((j, s) ∷ m) h = ground (arith, unlisted now beats i m)

stale_client_ids-lookup :
    (now : ℕ) (beats : List (ℕ × ℕ)) (i : Text) (m : Map ℕ)
    → HasKeys m
    → (if elem i (stale_client_ids (snapshot beats m) now heartbeat_timeout)
        then none
        else lookup i m)
      ≡ if_fresh now beats (lookup i m)
unfolding stale_client_ids elem lookup
stale_client_ids-lookup now beats i [] h = refl
stale_client_ids-lookup now beats i ((j, s) ∷ m) (h, hs) = elim (Bool-cases (eqb j i)) [
  | inl e ↦
      let k = unlisted now beats i m (subst (λ x. lookup x m ≡ none) (eqb→eq j i e) h) in
      ground (arith, k, e)
  | inr e ↦ ground (arith, e, stale_client_ids-lookup now beats i m hs)
]

-- In every state that the sessions reach: after a sweep a peer is listed exactly if it was listed before
-- and the last heartbeat of its session is not more than 90 seconds ago, and then with this session.
pub kick_stale_clients-lookup :
    (now : ℕ) (i : Text) (cs : List Client) (h : Center)
    → IsReachable cs h
    → lookup i (kick_stale_clients now h).clients ≡ if_fresh now h.last_beat (lookup i h.clients)
unfolding kick_stale_clients
kick_stale_clients-lookup now i cs h r =
    kick_ids-lookup (stale_client_ids (snapshot h.last_beat h.clients) now heartbeat_timeout) i h
    ∙ stale_client_ids-lookup now h.last_beat i h.clients (reachable-IsLive cs h r).1.keys
