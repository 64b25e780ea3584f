-- ===== src/Vip/Tests.antt =====
-- A run of vip.ts, and an instance of its theorem.
use pathmemos.Base.{◌≡◌, refl, inr, true, Option, none, some, [], ◌∷◌, is_some}
use pathmemos.Vip.{Info, Vip, get_vip_info, read_stored, fetch_begin, fetch_answered, set_vip_cache}
use pathmemos.Vip.Fresh.{shown, get-fetch_answered}

abbrev no_cache : Vip
no_cache = record { cache = none; cache_at = 0; stored = none; fetching = true }

abbrev answered : Vip × Option Info
answered = fetch_answered 1000 true (some (1, 20 ∷ [])) (some true) no_cache

vip_tests :
    (is_some answered.1 ≡ true)
    × (shown (get_vip_info 90_000 true answered.0) ≡ answered.1)
    × (shown (get_vip_info 90_000 true no_cache) ≡ none)
unfolding get_vip_info read_stored fetch_answered set_vip_cache
vip_tests = (refl, refl, refl)

get-fetch_answered_example :
    (is_some answered.1 ≡ true → shown (get_vip_info 90_000 true answered.0) ≡ answered.1)
    × ((fetch_begin answered.0).1 ≡ true)
get-fetch_answered_example =
    get-fetch_answered 1000 90_000 true true (some (1, 20 ∷ [])) (some true) no_cache
      (inr (refl, refl))
