-- ===== src/Mock/Process.antt =====
-- `TankProcess` of internal/mock/process.go over a float64 that is a parameter: its operations, and of
-- what Go and IEEE 754 say of them only what the theorems use.
use otcat.Base.{ℕ, ◌^◌, ◌<◌, ◌≡◌, Bool, false, if◌then◌else◌}

-- `lit m k` is the constant m / 10^k; `to_uint16` is the conversion `uint16(v)`.
pub record Float64 : Type 1 where
  pub F : Type 0
  pub lit : ℕ → ℕ → F
  pub add : F → F → F
  pub sub : F → F → F
  pub mul : F → F → F
  pub div : F → F → F
  pub max : F → F → F
  pub min : F → F → F
  pub sqrt : F → F
  pub round : F → F
  pub lt : F → F → Bool
  pub to_uint16 : F → ℕ

-- No constant is below zero, no number is below itself, and a uint16 has 16 bits.
pub record IsFloat64 (f : Float64) : Type 0 where
  pub lit_not_below : (m k : ℕ) → f.lt (f.lit m k) (f.lit 0 0) ≡ false
  pub not_below_itself : (v : f.F) → f.lt v v ≡ false
  pub to_uint16-lt : (v : f.F) → f.to_uint16 v < 2 ^ 16

module _ (f : Float64) where
  open f use {F, lit, add, sub, mul, div, max, min, sqrt, round, lt, to_uint16}

  pub record TankProcess : Type 0 where
    pub area : F
    pub outlet_k : F
    pub max_inflow : F
    pub full_scale : F
    pub level : F
    pub setpoint : F
    pub kp : F
    pub ki : F
    pub integral : F
    pub dt : F  -- seconds

  unfoldable pub new_tank_process : TankProcess
  new_tank_process = record {
    area = lit 20 1;
    outlet_k = lit 5 2;
    max_inflow = lit 5 2;
    full_scale = lit 25 1;
    level = lit 5 1;
    setpoint = lit 15 1;
    kp = lit 9 1;
    ki = lit 8 2;
    integral = lit 0 0;
    dt = lit 1 1;
  }

  unfoldable pub set_setpoint : F → TankProcess → TankProcess
  set_setpoint meters p = record p { setpoint = meters }

  -- The process after one step; the level that the code returns is its field.
  unfoldable pub step : TankProcess → TankProcess
  step p =
      let e = sub p.setpoint p.level in
      let integral = add p.integral (mul e p.dt) in
      let valve = add (mul p.kp e) (mul p.ki integral) in
      let valve = max (lit 0 0) (min (lit 1 0) valve) in
      let q_in = mul valve p.max_inflow in
      let q_out = mul p.outlet_k (sqrt (max (lit 0 0) p.level)) in
      let level = add p.level (mul (div (sub q_in q_out) p.area) p.dt) in
      record p { integral = integral; level = if lt level (lit 0 0) then lit 0 0 else level }

  unfoldable pub percent_x100 : TankProcess → ℕ
  percent_x100 p =
      let pct = mul (div p.level p.full_scale) (lit 1000 1) in
      let v = round (mul pct (lit 100 0)) in
      let v = if lt v (lit 0 0) then lit 0 0 else v in
      let v = if lt (lit 65535 0) v then lit 65535 0 else v in to_uint16 v
