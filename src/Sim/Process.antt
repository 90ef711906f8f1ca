-- ===== src/Sim/Process.antt =====
-- nodes/deviced/sim/src/process_model.c: the readings of the simulated process. The arithmetic of `double`
-- that it uses is given, with the constants of the code.
use equipment_control.Prelude.{◌≡◌, Bool, true, false, if◌then◌else◌, Bool-cases, inl, inr}
use equipment_control.Sim.{SimState}

-- Adding or taking away one of the steps, the order, and the constants. Nothing is below itself; a
-- positive step upwards does not lead below a bound that held, and one downwards not above it.
pub record Arithmetic (D : Type 0) : Type 0 where
  pub plus : D → D → D
  pub minus : D → D → D
  pub less : D → D → Bool
  pub ambient_temp : D
  pub ambient_pressure : D
  pub least_pressure : D
  pub no_flow : D
  pub most_flow : D
  pub heat_step : D
  pub cool_step : D
  pub pressure_step : D
  pub flow_step : D
  pub less_irrefl : (x : D) → less x x ≡ false
  pub heat_grows : (x c : D) → less x c ≡ false → less (plus x heat_step) c ≡ false
  pub pressure_grows : (x c : D) → less x c ≡ false → less (plus x pressure_step) c ≡ false
  pub pressure_shrinks : (x c : D) → less c x ≡ false → less c (minus x pressure_step) ≡ false
  pub flow_grows : (x c : D) → less x c ≡ false → less (plus x flow_step) c ≡ false
  pub flow_shrinks : (x c : D) → less c x ≡ false → less c (minus x flow_step) ≡ false
  pub pressure_order : less ambient_pressure least_pressure ≡ false
  pub flow_order : less most_flow no_flow ≡ false

pub record ProcessModel (D : Type 0) : Type 0 where
  pub temp : D
  pub pressure : D
  pub flow : D
  pub heater_on : Bool
  pub pump_on : Bool

abbrev switch : {D : Type 0} → Bool → ProcessModel D → ProcessModel D
switch on m = record m { heater_on = on; pump_on = on }

-- BOOTING and RECOVERING are the default.
unfoldable pub process_model_apply_state : {D : Type 0} → ProcessModel D → SimState → ProcessModel D
process_model_apply_state m SimState.processing = switch true m
process_model_apply_state m SimState.idle = switch false m
process_model_apply_state m SimState.ready = switch false m
process_model_apply_state m SimState.done = switch false m
process_model_apply_state m SimState.fault = switch false m
process_model_apply_state m _ = m

module _ {D : Type 0} (numbers : Arithmetic D) where
  open numbers use {
    plus, minus, less, ambient_temp, ambient_pressure, least_pressure, no_flow, most_flow,
    heat_step, cool_step, pressure_step, flow_step,
  }

  unfoldable pub process_model_init : ProcessModel D
  process_model_init = record {
    temp = ambient_temp;
    pressure = ambient_pressure;
    flow = no_flow;
    heater_on = false;
    pump_on = false;
  }

  -- `if(x < low) x = low` and `if(x > high) x = high`
  abbrev at_least : D → D → D
  at_least low x = if less x low then low else x

  abbrev at_most : D → D → D
  at_most high x = if less high x then high else x

  unfoldable pub next_temp : Bool → D → D
  next_temp true temp = plus temp heat_step
  next_temp false temp = at_least ambient_temp (minus temp cool_step)

  unfoldable pub next_pressure : Bool → D → D
  next_pressure true pressure = at_least least_pressure (minus pressure pressure_step)
  next_pressure false pressure = at_most ambient_pressure (plus pressure pressure_step)

  unfoldable pub next_flow : Bool → D → D
  next_flow true flow = at_most most_flow (plus flow flow_step)
  next_flow false flow = at_least no_flow (minus flow flow_step)

  unfoldable pub process_model_update : ProcessModel D → ProcessModel D
  process_model_update m = record m {
    temp = next_temp m.heater_on m.temp;
    pressure = next_pressure m.pump_on m.pressure;
    flow = next_flow m.heater_on m.flow;
  }

  -- The readings are within the bounds of the code.
  pub record InRange (m : ProcessModel D) : Type 0 where
    pub warm : less m.temp ambient_temp ≡ false
    pub some_pressure : less m.pressure least_pressure ≡ false
    pub below_ambient : less ambient_pressure m.pressure ≡ false
    pub some_flow : less m.flow no_flow ≡ false
    pub below_most : less most_flow m.flow ≡ false

  pub init-InRange : InRange process_model_init
  unfolding process_model_init
  init-InRange = record {
    warm = numbers.less_irrefl ambient_temp;
    some_pressure = numbers.pressure_order;
    below_ambient = numbers.less_irrefl ambient_pressure;
    some_flow = numbers.less_irrefl no_flow;
    below_most = numbers.flow_order;
  }

  -- A property of both values of a test holds of what it chooses.
  chosen : (P : D → Type 0) (b : Bool) (x y : D) → P x → P y → P (if b then x else y)
  chosen P true x y hx hy = hx
  chosen P false x y hx hy = hy

  at_least-low : (low x : D) → less (at_least low x) low ≡ false
  at_least-low low x = elim (Bool-cases (less x low)) [
    | inl below ↦ rw below (numbers.less_irrefl low)
    | inr fine ↦ rw fine fine
  ]

  at_most-high : (high x : D) → less high (at_most high x) ≡ false
  at_most-high high x = elim (Bool-cases (less high x)) [
    | inl above ↦ rw above (numbers.less_irrefl high)
    | inr fine ↦ rw fine fine
  ]

  next_temp-warm :
      (on : Bool) (x : D) → less x ambient_temp ≡ false → less (next_temp on x) ambient_temp ≡ false
  unfolding next_temp
  next_temp-warm true x h = numbers.heat_grows x ambient_temp h
  next_temp-warm false x h = at_least-low ambient_temp (minus x cool_step)

  next_pressure-bounds :
      (on : Bool) (x : D)
      → less x least_pressure ≡ false
      → less ambient_pressure x ≡ false
      → (less (next_pressure on x) least_pressure ≡ false)
        × (less ambient_pressure (next_pressure on x) ≡ false)
  unfolding next_pressure
  next_pressure-bounds true x l h = (
    at_least-low least_pressure (minus x pressure_step),
    chosen (λ y. less ambient_pressure y ≡ false) _ least_pressure _ numbers.pressure_order
        (numbers.pressure_shrinks x ambient_pressure h),
  )
  next_pressure-bounds false x l h = (
    chosen (λ y. less y least_pressure ≡ false) _ ambient_pressure _ numbers.pressure_order
        (numbers.pressure_grows x least_pressure l),
    at_most-high ambient_pressure (plus x pressure_step),
  )

  next_flow-bounds :
      (on : Bool) (x : D)
      → less x no_flow ≡ false
      → less most_flow x ≡ false
      → (less (next_flow on x) no_flow ≡ false) × (less most_flow (next_flow on x) ≡ false)
  unfolding next_flow
  next_flow-bounds true x l h = (
    chosen (λ y. less y no_flow ≡ false) _ most_flow _ numbers.flow_order
        (numbers.flow_grows x no_flow l),
    at_most-high most_flow (plus x flow_step),
  )
  next_flow-bounds false x l h = (
    at_least-low no_flow (minus x flow_step),
    chosen (λ y. less most_flow y ≡ false) _ no_flow _ numbers.flow_order
        (numbers.flow_shrinks x most_flow h),
  )

  switch-InRange : (on : Bool) (m : ProcessModel D) → InRange m → InRange (switch on m)
  switch-InRange on m r = record {
    warm = r.warm;
    some_pressure = r.some_pressure;
    below_ambient = r.below_ambient;
    some_flow = r.some_flow;
    below_most = r.below_most;
  }

  pub apply_state-InRange :
      (m : ProcessModel D) (s : SimState) → InRange m → InRange (process_model_apply_state m s)
  unfolding process_model_apply_state
  apply_state-InRange m SimState.processing r = switch-InRange true m r
  apply_state-InRange m SimState.idle r = switch-InRange false m r
  apply_state-InRange m SimState.ready r = switch-InRange false m r
  apply_state-InRange m SimState.done r = switch-InRange false m r
  apply_state-InRange m SimState.fault r = switch-InRange false m r
  apply_state-InRange m _ r = r

  pub update-InRange : (m : ProcessModel D) → InRange m → InRange (process_model_update m)
  unfolding process_model_update
  update-InRange m r =
      let (p, q) = next_pressure-bounds m.pump_on m.pressure r.some_pressure r.below_ambient in
      let (f, g) = next_flow-bounds m.heater_on m.flow r.some_flow r.below_most in
      record {
        warm = next_temp-warm m.heater_on m.temp r.warm;
        some_pressure = p;
        below_ambient = q;
        some_flow = f;
        below_most = g;
      }
