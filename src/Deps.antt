-- ===== src/Deps.antt =====
-- What the server uses of its dependencies, as one interface: serde_json's values, the opaque
-- types of devicectrl-common, the keys and signatures of p256. The modules that follow take it as
-- an instance argument, so they hold for every implementation of it.
use devicectrl_server.Prelude.{ℕ, String, Option, List, Result, ℤ}

abbrev pub Bytes : Type 0
Bytes = List ℕ

-- `NumericProperties`, whose three fields govee.rs writes out
pub record NumericProperties : Type 0 where
  pub min : ℕ
  pub max : ℕ
  pub step : ℕ

pub record Deps : Type 1 where
  -- `serde_json::Value`; `object` and `number` are what `json!` builds, `index v k` is `v[k]`
  pub Value : Type 0
  pub object : List (String × Value) → Value
  pub number : ℕ → Value
  pub text : String → Value
  pub index : Value → String → Value
  pub as_i64 : Value → Option ℤ
  pub as_u64 : Value → Option ℕ
  pub to_vec : Value → Result Bytes
  pub from_slice : Bytes → Result Value
  -- devicectrl-common: types that the program only passes on, and the variants it never names
  pub NumericState : Type 0
  pub ColorLightState : Type 0
  pub BrightnessUpdate : Type 0
  pub FailureText : Type 0
  pub OtherState : Type 0
  pub OtherType : Type 0
  pub OtherNumeric : Type 0
  pub OtherUpdate : Type 0
  pub OtherMessage : Type 0
  pub to_state : NumericProperties → ℕ → NumericState
  pub color_brightness : ColorLightState → NumericState
  -- the JSON form of `update.apply_to(&state)`
  pub apply_to : BrightnessUpdate → NumericState → Value
  -- `DeviceId::from(&str)`, and `push_str` on an empty id: `none` if the text does not fit
  pub device_id_of : String → Option ℕ
  -- a latitude or a longitude, a floating-point number
  pub Coordinate : Type 0
  -- p256
  pub VerifyingKey : Type 0
  pub SigningKey : Type 0
  pub signature_len : ℕ
  pub verify : VerifyingKey → Bytes → Bytes → Result (Unit {0})
  pub sign : SigningKey → Bytes → Result Bytes
