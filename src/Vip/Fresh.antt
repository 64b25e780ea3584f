-- ===== src/Vip/Fresh.antt =====
-- vip.ts: what a query leaves for later readings.
use pathmemos.Base.{ℕ, ◌+◌, ◌≡◌, ◌<◌, ◌⊎◌, Bool, true, Option, none, some, List, arith, is_some}
use pathmemos.Vip.{
  Info, Vip, vip_cache_ttl_ms, set_vip_cache, read_stored, get_vip_info, fetch_begin,
  fetch_answered,
}

-- What a reading shows; a throw shows nothing.
abbrev pub shown : Option (Vip × Option Info) → Option Info
shown none = none
shown (some (v, info)) = info

-- After a query that has an answer, a reading gives that answer for a minute, and later too if the
-- storage took it and can be read; the next query is not kept from starting, whether or not this one had an answer.
pub get-fetch_answered :
    (now later : ℕ) (writes reads : Bool) (answer : Option (ℕ × List ℕ)) (claimed : Option Bool)
    (v : Vip)
    → (later < now + vip_cache_ttl_ms) ⊎ ((writes ≡ true) × (reads ≡ true))
    → let (t, info) = fetch_answered now writes answer claimed v in
      (is_some info ≡ true → shown (get_vip_info later reads t) ≡ info) × ((fetch_begin t).1 ≡ true)
unfolding fetch_answered get_vip_info read_stored fetch_begin set_vip_cache
get-fetch_answered now later writes reads none claimed v h = ground arith
get-fetch_answered now later writes reads (some (is_vip, expires)) claimed v h = ground arith
