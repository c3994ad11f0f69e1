-- ===== src/Peers/Sessions.antt =====
-- The sessions of the peers over every sequence of what `monitoring` takes up.
use nimo_os.Base.{
  ℕ, ◌≡◌, ◌≢◌, refl, ◌∙◌, Bool, true, false, List, [], ◌∷◌, Option, none, some, arith, All, ◌||◌,
  Bool-cases, inl, inr,
}
use nimo_os.Text.{Text, eqb}
use nimo_os.Text.Laws.{eqb_iff, eqb_refl}
use nimo_os.Maps.{Map, lookup, delete, put}
use nimo_os.Maps.Laws.{lookup-put, lookup-delete}
use nimo_os.Peers.{
  Client, Center, empty_center, in_list, touch_last_beat, is_superseded, replaced_by,
  mark_superseded, register_client, is_session, unregister_client, test_left, announce_left,
  end_session, heartbeat_timeout, stale_client_ids, snapshot, kick_found, kick_ids,
  kick_stale_clients,
}

-- A session that no client has had so far.
pub record IsFresh (c : Client) (h : Center) : Type 0 where
  pub unlisted : (i : Text) → lookup i h.clients ≢ some c.session
  pub unmarked : in_list c.session h.superseded ≡ false
  pub unended : in_list c.session h.ended ≡ false

-- What the goroutines of the sessions and `monitoring` do next to registering, in any order: any
-- session may end at any time, and any that waits to announce peer-left may be taken up.
pub data Step : Center → Center → Type 0 where
  tests : (c : Client) (h : Center) → Step h (test_left c h)
  announces : (c : Client) (h : Center) → Step h (announce_left c h)
  ends : (c : Client) (h : Center) → Step h (end_session c h)
  beats : (s now : ℕ) (h : Center) → Step h (touch_last_beat s now h)
  kicks : (now : ℕ) (h : Center) → Step h (kick_stale_clients now h)

-- The states, with all sessions that have registered so far.
pub data IsReachable : List Client → Center → Type 0 where
  start : IsReachable [] empty_center
  registers :
      (cs : List Client) (c : Client) (h : Center)
      → IsReachable cs h
      → IsFresh c h
      → IsReachable (c ∷ cs) (register_client c h).0
  step : (cs : List Client) (p q : Center) → IsReachable cs p → Step p q → IsReachable cs q

-- No key stands twice in a map.
abbrev pub HasKeys {ℓ} : {V : Type ℓ} → Map V → Type ℓ
HasKeys [] = Unit
HasKeys ((k, v) ∷ m) = (lookup k m ≡ none) × HasKeys m

-- What holds of the clients and of the superseded sessions: a session that a client has is not
-- superseded, and no two clients have the same.
pub record IsLive (clients : Map ℕ) (superseded : List ℕ) : Type 0 where
  pub keys : HasKeys clients
  pub live : (i : Text) (s : ℕ) → lookup i clients ≡ some s → in_list s superseded ≡ false
  pub single : (i j : Text) (s : ℕ) → lookup i clients ≡ some s → lookup j clients ≡ some s → i ≡ j

abbrev pub IsLiveCenter : Center → Type 0
IsLiveCenter h = IsLive h.clients h.superseded

delete-HasKeys {ℓ} : {V : Type ℓ} (k : Text) (m : Map V) → HasKeys m → HasKeys (delete k m)
unfolding delete
delete-HasKeys k [] h = tt
delete-HasKeys k ((j, v) ∷ m) (h, hs) = elim (Bool-cases (eqb j k)) [
  | inl e ↦ rw e (delete-HasKeys k m hs)
  | inr e ↦
      rw e (lookup-delete j k m ∙ ground (arith, eqb_iff k j, eqb_iff j k), delete-HasKeys k m hs)
]

empty-IsLive : IsLive [] []
unfolding lookup
empty-IsLive = record { keys = tt; live = λ i s e. cc; single = λ i j s e f. cc }

module _ (clients : Map ℕ) (superseded : List ℕ) (h : IsLive clients superseded) where
  delete-IsLive : (k : Text) → IsLive (delete k clients) superseded
  delete-IsLive k = record {
    keys = delete-HasKeys k clients h.keys;
    live = λ i s e. ground (arith, lookup-delete i k clients, h.live i s);
    single = λ i j s e f.
        ground (arith, lookup-delete i k clients, lookup-delete j k clients, h.single i j s);
  }

  module _ (k : Text) (s : ℕ) (unlisted : (i : Text) → lookup i clients ≢ some s)
      (unmarked : in_list s superseded ≡ false) where
    put-live :
        (o : Option ℕ) (i : Text) (t : ℕ)
        → lookup k clients ≡ o
        → lookup i (put k s clients) ≡ some t
        → in_list t (mark_superseded (replaced_by s o) superseded) ≡ false
    put-live none i t e f = ground (arith, lookup-put i k s clients, h.live i t)
    put-live (some u) i t e f =
        ground
          (arith, lookup-put i k s clients, h.live i t, h.single i k t, unlisted k, eqb_iff k i)

    put-IsLive :
        IsLive (put k s clients) (mark_superseded (replaced_by s (lookup k clients)) superseded)
    unfolding put
    put-IsLive = record {
      keys = (lookup-delete k k clients ∙ rw (eqb_refl k) refl, delete-HasKeys k clients h.keys);
      live = λ i t f. put-live (lookup k clients) i t refl f;
      single = λ i j t e f. ground (
        arith,
        lookup-put i k s clients,
        lookup-put j k s clients,
        h.single i j t,
        unlisted i,
        unlisted j,
        eqb_iff k i,
        eqb_iff k j,
      );
    }

unregister_client-IsLive :
    (c : Client) (h : Center) → IsLiveCenter h → IsLiveCenter (unregister_client c h).0
unfolding unregister_client
unregister_client-IsLive c h l = elim (Bool-cases (is_session c.session (lookup c.id h.clients))) [
  | inl e ↦ rw e (delete-IsLive h.clients h.superseded l c.id)
  | inr e ↦ rw e l
]

kick_ids-IsLive : (ids : List Text) (h : Center) → IsLiveCenter h → IsLiveCenter (kick_ids ids h)
unfolding kick_ids
kick_ids-IsLive [] h l = l
kick_ids-IsLive (id ∷ ids) h l = kick_ids-IsLive ids _ (found (lookup id h.clients))
  where
    found : (o : Option ℕ) → IsLiveCenter (kick_found id o h)
    found none = l
    found (some s) = delete-IsLive h.clients h.superseded l id

kick_stale_clients-IsLive :
    (now : ℕ) (h : Center) → IsLiveCenter h → IsLiveCenter (kick_stale_clients now h)
unfolding kick_stale_clients
kick_stale_clients-IsLive now h l =
    kick_ids-IsLive (stale_client_ids (snapshot h.last_beat h.clients) now heartbeat_timeout) h l

test_left-IsLive : (c : Client) (h : Center) → IsLiveCenter h → IsLiveCenter (test_left c h)
unfolding test_left
test_left-IsLive c h l = elim (Bool-cases (is_superseded c.session h)) [
  | inl e ↦ rw e l
  | inr e ↦ rw e (record { keys = l.keys; live = l.live; single = l.single })
]

step-IsLive : (p q : Center) → Step p q → IsLiveCenter p → IsLiveCenter q
unfolding end_session announce_left
step-IsLive _ _ (Step.tests c h) l = test_left-IsLive c h l
step-IsLive _ _ (Step.announces c h) l = l
step-IsLive _ _ (Step.ends c h) l = unregister_client-IsLive c h l
step-IsLive _ _ (Step.beats s now h) l = unfold touch_last_beat in l
step-IsLive _ _ (Step.kicks now h) l = kick_stale_clients-IsLive now h l

register_client-IsLive :
    (c : Client) (h : Center) → IsFresh c h → IsLiveCenter h → IsLiveCenter (register_client c h).0
unfolding register_client
register_client-IsLive c h f l =
    put-IsLive h.clients h.superseded l c.id c.session f.unlisted f.unmarked

reachable-keys : (cs : List Client) (h : Center) → IsReachable cs h → IsLiveCenter h
reachable-keys _ _ IsReachable.start = empty-IsLive
reachable-keys _ _ (IsReachable.registers cs c h r f) =
    register_client-IsLive c h f (reachable-keys cs h r)
reachable-keys _ _ (IsReachable.step cs p q r s) = step-IsLive p q s (reachable-keys cs p r)

-- A session that has registered is listed under its peer, or was superseded, or has ended.
abbrev pub is_accounted : Center → Client → Bool
is_accounted h c =
    in_list c.session h.superseded
    || in_list c.session h.ended
    || is_session c.session (lookup c.id h.clients)

abbrev pub AllAccounted : Center → List Client → Type 0
AllAccounted h = All (λ c. is_accounted h c ≡ true)

register_client-accounted :
    (c d : Client) (h : Center)
    → IsFresh c h
    → is_accounted h d ≡ true
    → is_accounted (register_client c h).0 d ≡ true
unfolding register_client
register_client-accounted c d h f a = by_case (lookup c.id h.clients) refl
  where
    by_case :
        (o : Option ℕ)
        → lookup c.id h.clients ≡ o
        → (in_list d.session (mark_superseded (replaced_by c.session o) h.superseded)
            || in_list d.session h.ended
            || is_session d.session (lookup d.id (put c.id c.session h.clients)))
          ≡ true
    by_case none e = ground (arith, lookup-put d.id c.id c.session h.clients, eqb_iff c.id d.id)
    by_case (some t) e =
        ground (arith, lookup-put d.id c.id c.session h.clients, eqb_iff c.id d.id, f.unlisted c.id)

unregister_client-accounted :
    (c d : Client) (h : Center)
    → is_accounted h d ≡ true
    → is_accounted (record (unregister_client c h).0 { ended = c.session ∷ h.ended }) d ≡ true
unfolding unregister_client
unregister_client-accounted c d h a =
    elim (Bool-cases (is_session c.session (lookup c.id h.clients))) [
      | inl b ↦ rw b (by_case (lookup c.id h.clients) refl b)
      | inr b ↦ rw b (ground arith)
    ]
  where
    by_case :
        (o : Option ℕ)
        → lookup c.id h.clients ≡ o
        → is_session c.session o ≡ true
        → (in_list d.session h.superseded
            || in_list d.session (c.session ∷ h.ended)
            || is_session d.session (lookup d.id (delete c.id h.clients)))
          ≡ true
    by_case none e b = cc b
    by_case (some t) e b = ground (arith, lookup-delete d.id c.id h.clients, eqb_iff c.id d.id)

end_session-accounted :
    (c d : Client) (h : Center) → is_accounted h d ≡ true → is_accounted (end_session c h) d ≡ true
unfolding end_session
end_session-accounted c d h a = unregister_client-accounted c d h a

kick_found-accounted :
    (id : Text) (d : Client) (h : Center) (o : Option ℕ)
    → lookup id h.clients ≡ o
    → is_accounted h d ≡ true
    → is_accounted (kick_found id o h) d ≡ true
kick_found-accounted id d h none e a = a
kick_found-accounted id d h (some s) e a =
    ground (arith, lookup-delete d.id id h.clients, eqb_iff id d.id)

kick_ids-accounted :
    (ids : List Text) (d : Client) (h : Center)
    → is_accounted h d ≡ true
    → is_accounted (kick_ids ids h) d ≡ true
unfolding kick_ids
kick_ids-accounted [] d h a = a
kick_ids-accounted (id ∷ ids) d h a =
    kick_ids-accounted ids d _ (kick_found-accounted id d h (lookup id h.clients) refl a)

test_left-accounted :
    (c d : Client) (h : Center) → is_accounted h d ≡ true → is_accounted (test_left c h) d ≡ true
unfolding test_left
test_left-accounted c d h a = elim (Bool-cases (is_superseded c.session h)) [
  | inl e ↦ rw e a
  | inr e ↦ rw e a
]

step-accounted :
    (p q : Center) (d : Client) → Step p q → is_accounted p d ≡ true → is_accounted q d ≡ true
step-accounted _ _ d (Step.tests c h) a = test_left-accounted c d h a
step-accounted _ _ d (Step.announces c h) a = unfold announce_left in a
step-accounted _ _ d (Step.ends c h) a = end_session-accounted c d h a
step-accounted _ _ d (Step.beats s now h) a = unfold touch_last_beat in a
step-accounted _ _ d (Step.kicks now h) a =
    unfold kick_stale_clients in
    kick_ids-accounted (stale_client_ids (snapshot h.last_beat h.clients) now heartbeat_timeout) d h
      a

all_accounted :
    (p q : Center)
    → ((d : Client) → is_accounted p d ≡ true → is_accounted q d ≡ true)
    → (cs : List Client) → AllAccounted p cs
    → AllAccounted q cs
all_accounted p q f [] a = tt
all_accounted p q f (c ∷ cs) (a, rest) = (f c a, all_accounted p q f cs rest)

registered : (c : Client) (h : Center) → is_accounted (register_client c h).0 c ≡ true
unfolding register_client
registered c h = ground (arith, lookup-put c.id c.id c.session h.clients, eqb_refl c.id)

reachable-accounted : (cs : List Client) (h : Center) → IsReachable cs h → AllAccounted h cs
reachable-accounted _ _ IsReachable.start = tt
reachable-accounted _ _ (IsReachable.registers cs c h r f) = (
  registered c h,
  all_accounted h (register_client c h).0 (λ d. register_client-accounted c d h f) cs
      (reachable-accounted cs h r),
)
reachable-accounted _ _ (IsReachable.step cs p q r s) =
    all_accounted p q (λ d. step-accounted p q d s) cs (reachable-accounted cs p r)

-- Whatever registers, ends, announces its end, beats or is kicked, and in whichever order the steps of
-- the sessions come: every session that has registered is listed under its peer, or was superseded,
-- or has ended: it was taken up from `unregister` or kicked out. No session that is listed was
-- superseded, no two peers have the same session, and no peer is listed twice. Each session that
-- registers is a new one.
pub reachable-IsLive :
    (cs : List Client) (h : Center) → IsReachable cs h → AllAccounted h cs × IsLiveCenter h
reachable-IsLive cs h r = (reachable-accounted cs h r, reachable-keys cs h r)
