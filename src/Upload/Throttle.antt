-- ===== src/Upload/Throttle.antt =====
-- service/upload/touch_throttle.go: one event of a key is let through in each interval, with a
-- bound on the keys that are remembered. A Go map is an association list with one entry of a key.
use nimo_os.Base.{
  ℕ, suc, ◌+◌, ◌≤◌, ◌≡◌, refl, Bool, true, false, List, [], ◌∷◌, Option, none, some, arith, length,
  leb, ltb, if◌then◌else◌,
}
use nimo_os.Text.{Text, eqb}
use nimo_os.Text.Laws.{eqb_refl}

abbrev pub max_throttle_entries : ℕ
max_throttle_entries = 10000

abbrev LastMap : Type 0
LastMap = List (Text × ℕ)

unfoldable pub lookup : Text → LastMap → Option ℕ
lookup k [] = none
lookup k ((j, v) ∷ m) = if eqb j k then some v else lookup k m

unfoldable pub put : Text → ℕ → LastMap → LastMap
put k v [] = (k, v) ∷ []
put k v ((j, w) ∷ m) = if eqb j k then (j, v) ∷ m else (j, w) ∷ put k v m

pub record TouchThrottle : Type 0 where
  pub interval : ℕ
  pub last : LastMap

unfoldable pub new_touch_throttle : ℕ → TouchThrottle
new_touch_throttle interval_secs = record { interval = interval_secs; last = [] }

unfoldable pub allow_entry : Option ℕ → TouchThrottle → Text → ℕ → Bool × TouchThrottle
allow_entry (some last) t key now =
    if ltb now (last + t.interval)
    then (false, t)
    else (true, record t { last = put key now t.last })
allow_entry none t key now =
    if leb max_throttle_entries (length t.last)
    then (true, record t { last = put key now [] })
    else (true, record t { last = put key now t.last })

-- `now-last < interval` on int64 is `now < last + interval`.
unfoldable pub allow : TouchThrottle → Text → ℕ → Bool × TouchThrottle
unfolding allow_entry
allow t key now = allow_entry (lookup key t.last) t key now

lookup-put_self : (k : Text) (v : ℕ) (m : LastMap) → lookup k (put k v m) ≡ some v
unfolding lookup put
lookup-put_self k v [] = ground (arith, eqb_refl k)
lookup-put_self k v ((j, w) ∷ m) = ground (arith, lookup-put_self k v m)

length-put_new :
    (k : Text) (v : ℕ) (m : LastMap) → lookup k m ≡ none → length (put k v m) ≡ suc (length m)
unfolding lookup put
length-put_new k v [] h = refl
length-put_new k v ((j, w) ∷ m) h = ground (arith, length-put_new k v m)

length-put_old :
    (k : Text) (v w : ℕ) (m : LastMap) → lookup k m ≡ some w → length (put k v m) ≡ length m
unfolding lookup put
length-put_old k v w [] h = cc
length-put_old k v w ((j, u) ∷ m) h = ground (arith, length-put_old k v w m)

-- The map never holds more than `max_throttle_entries` keys.
pub allow_bound :
    (t : TouchThrottle) (key : Text) (now : ℕ)
    → length t.last ≤ max_throttle_entries
    → length (allow t key now).1.last ≤ max_throttle_entries
unfolding allow put
allow_bound t key now h = bound (lookup key t.last) refl
  where
    bound :
        (o : Option ℕ)
        → lookup key t.last ≡ o
        → length (allow_entry o t key now).1.last ≤ max_throttle_entries
    bound none e = ground (arith, length-put_new key now t.last e)
    bound (some w) e = ground (arith, length-put_old key now w t.last e)

pub allow-lookup :
    (t : TouchThrottle) (key : Text) (now : ℕ)
    → (allow t key now).0 ≡ true
    → (lookup key (allow t key now).1.last ≡ some now) × ((allow t key now).1.interval ≡ t.interval)
unfolding allow
allow-lookup t key now h = entry (lookup key t.last) h
  where
    entry :
        (o : Option ℕ)
        → (allow_entry o t key now).0 ≡ true
        → (lookup key (allow_entry o t key now).1.last ≡ some now)
          × ((allow_entry o t key now).1.interval ≡ t.interval)
    entry none e = ground (arith, lookup-put_self key now t.last, lookup-put_self key now [])
    entry (some w) e = ground (arith, lookup-put_self key now t.last)
