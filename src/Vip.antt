-- ===== src/Vip.antt =====
-- frontend/miniapp/miniprogram/utils/vip.ts: the cached VIP record and its query. A time is in
-- milliseconds; a record of the user is an `Info`.
pub mod Fresh
mod Tests
use pathmemos.Base.{
  ℕ, ◌+◌, ◌*◌, Bool, true, false, ◌&&◌, Option, none, some, List, ltb, if◌then◌else◌, is_some,
}

pub record Info : Type 0 where
  pub received_free_vip : Bool
  pub is_vip : ℕ
  pub vip_expire_time : List ℕ
  pub fetch_time : ℕ

abbrev pub vip_cache_ttl_ms : ℕ
vip_cache_ttl_ms = 60 * 1000

-- `_vipInfoCache` with its time, what the storage holds (none is nothing, or no JSON), and whether
-- `_fetchVipPromise` is set.
pub record Vip : Type 0 where
  pub cache : Option Info
  pub cache_at : ℕ
  pub stored : Option Info
  pub fetching : Bool

-- `_setVipCache`
unfoldable pub set_vip_cache : ℕ → (writes : Bool) → Info → Vip → Vip
set_vip_cache now writes info v = record v {
  cache = some info;
  cache_at = now;
  stored = if writes then some info else v.stored;
}

unfoldable pub read_stored : ℕ → Option Info → Vip → Vip × Option Info
read_stored now (some info) v = (record v { cache = some info; cache_at = now }, some info)
read_stored now none v = (record v { cache = none; cache_at = 0; stored = none }, none)

-- `getVipInfo`; none is a throw of the storage.
unfoldable pub get_vip_info : ℕ → (reads : Bool) → Vip → Option (Vip × Option Info)
unfolding read_stored
get_vip_info now reads v =
    let cached : Vip × Option Info = (v, v.cache) in
    if is_some v.cache && ltb now (v.cache_at + vip_cache_ttl_ms)
    then some cached
    else if reads
    then some (read_stored now v.stored v)
    else none

-- `fetchVipInfo`: true if it makes the query, and does not wait for the one under way.
unfoldable pub fetch_begin : Vip → Vip × Bool
fetch_begin v = if v.fetching then (v, false) else (record v { fetching = true }, true)

-- The answers of the two queries: the first one's `isVip` and `expireTime`, or none for a failure, and
-- the second one's `claimed`.
unfoldable pub fetch_answered :
    ℕ → (writes : Bool) → Option (ℕ × List ℕ) → (claimed : Option Bool) → Vip → Vip × Option Info
unfolding set_vip_cache
fetch_answered now writes none claimed v = (record v { fetching = false }, none)
fetch_answered now writes (some (is_vip, expires)) claimed v =
    let info : Info = record {
      received_free_vip = elim claimed [ none ↦ false | some b ↦ b ];
      is_vip = is_vip;
      vip_expire_time = expires;
      fetch_time = now;
    } in
    (record (set_vip_cache now writes info v) { fetching = false }, some info)
