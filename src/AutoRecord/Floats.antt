-- ===== src/AutoRecord/Floats.antt =====
-- autoRecord.ts: the arithmetic on coordinates. JavaScript's floating point is a parameter: its
-- numbers, its operations and its comparison, with no laws assumed.
use pathmemos.Base.{ℕ, ◌*◌, Bool, List, [], ◌∷◌, length}

pub record Floats : Type 1 where
  pub Num : Type 0
  pub num : ℕ → Num
  pub half : Num
  pub pi : Num
  pub add : Num → Num → Num
  pub sub : Num → Num → Num
  pub mul : Num → Num → Num
  pub div : Num → Num → Num
  pub cos : Num → Num
  pub round : Num → Num
  pub lt : Num → Num → Bool

pub record LocationPoint (Num : Type 0) : Type 0 where
  pub latitude : Num
  pub longitude : Num
  pub accuracy : Num
  pub timestamp : ℕ

pub record Centroid (Num : Type 0) : Type 0 where
  pub lat : Num
  pub lon : Num

-- `recordedAt` is the instant that the ISO text names, in milliseconds.
pub record StayPoint (Num : Type 0) : Type 0 where
  pub lat : Num
  pub lon : Num
  pub recorded_at : ℕ

abbrev pub stationary_threshold_meters : ℕ
stationary_threshold_meters = 300

module _ (f : Floats) where
  open f use {Num, num, half, pi, add, sub, mul, div, cos, round, lt}

  -- `Math.pow(10, COORD_PRECISION)` is 10000.
  unfoldable pub round_coord : Num → Num
  round_coord v = div (round (mul v (num 10000))) (num 10000)

  square : Num → Num
  square v = mul v v

  unfoldable pub distance_meters_sq : Num → Num → Num → Num → Num
  unfolding square
  distance_meters_sq lat1 lon1 lat2 lon2 =
      let avg_lat = div (mul (mul (add lat1 lat2) half) pi) (num 180) in
      let d_lat = sub lat2 lat1 in
      let d_lon = sub lon2 lon1 in
      let meters_per_deg_lon = mul (num 111320) (cos avg_lat) in
      add (square (mul d_lat (num 111320))) (square (mul d_lon meters_per_deg_lon))

  -- The two sums of the loop.
  sums : Num → Num → List (LocationPoint Num) → Num × Num
  sums lat_sum lon_sum [] = (lat_sum, lon_sum)
  sums lat_sum lon_sum (p ∷ points) = sums (add lat_sum p.latitude) (add lon_sum p.longitude) points

  unfoldable pub calc_centroid : List (LocationPoint Num) → Centroid Num
  unfolding sums
  calc_centroid points =
      let (lat_sum, lon_sum) = sums (num 0) (num 0) points in
      record { lat = div lat_sum (num (length points)); lon = div lon_sum (num (length points)) }

  -- `distSq < STATIONARY_THRESHOLD_METERS_SQ`
  unfoldable pub is_near : Num → Num → Centroid Num → Bool
  unfolding distance_meters_sq
  is_near lat lon c =
      lt (distance_meters_sq lat lon c.lat c.lon)
        (num (stationary_threshold_meters * stationary_threshold_meters))
