-- ===== src/Peers/Examples.antt =====
-- The theorems on the peers at concrete inputs, and tests.
use nimo_os.Base.{ℕ, ◌≡◌, refl, List, [], ◌∷◌, arith}
use nimo_os.Text.{Text, eqb, text}
use nimo_os.Maps.{lookup, put, delete}
use nimo_os.Peers.{
  Client, Center, empty_center, register_client, end_session, touch_last_beat, kick_stale_clients,
  kickout_ids, kickout_below,
}
use nimo_os.Peers.Sessions.{
  IsFresh, Step, IsReachable, IsLiveCenter, AllAccounted, reachable-IsLive,
}
use nimo_os.Peers.Stale.{if_fresh, kick_stale_clients-lookup}

abbrev phone : ℕ → Client
phone s = record { session = s; id = text "phone" }

abbrev one_phone : Center
one_phone = (register_client (phone 1) empty_center).0

first-IsFresh : IsFresh (phone 1) empty_center
unfolding lookup
first-IsFresh = record { unlisted = λ i e. cc e; unmarked = refl; unended = refl }

one_phone-IsReachable : IsReachable (phone 1 ∷ []) one_phone
one_phone-IsReachable =
    IsReachable.registers [] (phone 1) empty_center IsReachable.start first-IsFresh

second-IsFresh : IsFresh (phone 2) one_phone
unfolding lookup register_client put delete
second-IsFresh = record { unlisted = λ i e. ground (arith, e); unmarked = refl; unended = refl }

-- The phone connects again, and then its first session ends.
abbrev two_phones : List Client
two_phones = phone 2 ∷ phone 1 ∷ []

abbrev again : Center
again = (register_client (phone 2) one_phone).0

first_ended-IsReachable : IsReachable two_phones (end_session (phone 1) again)
first_ended-IsReachable =
    IsReachable.step two_phones again (end_session (phone 1) again)
      (IsReachable.registers (phone 1 ∷ []) (phone 2) one_phone one_phone-IsReachable
        second-IsFresh)
      (Step.ends (phone 1) again)

reachable-IsLive_example :
    AllAccounted (end_session (phone 1) again) two_phones
    × IsLiveCenter (end_session (phone 1) again)
reachable-IsLive_example =
    reachable-IsLive two_phones (end_session (phone 1) again) first_ended-IsReachable

-- The second session of the phone beats, and is found dead a hundred seconds later.
abbrev silent : Center
silent = touch_last_beat 2 300 again

silent-IsReachable : IsReachable two_phones silent
silent-IsReachable =
    IsReachable.step two_phones again silent
      (IsReachable.registers (phone 1 ∷ []) (phone 2) one_phone one_phone-IsReachable
        second-IsFresh)
      (Step.beats 2 300 again)

kick_stale_clients-lookup_example :
    lookup (text "phone") (kick_stale_clients 400 silent).clients
    ≡ if_fresh 400 silent.last_beat (lookup (text "phone") silent.clients)
kick_stale_clients-lookup_example =
    kick_stale_clients-lookup 400 (text "phone") two_phones silent silent-IsReachable

abbrev rows : List Text
rows = text "a" ∷ text "b" ∷ text "c" ∷ text "d" ∷ []

kicks_oldest_offline :
    kickout_ids rows (λ id. eqb id (text "c")) (text "d") 2 ≡ text "b" ∷ text "a" ∷ []
unfolding kickout_ids kickout_below eqb
kicks_oldest_offline = refl
