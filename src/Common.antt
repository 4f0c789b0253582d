-- ===== src/Common.antt =====
-- The data types of devicectrl-common as this program builds and matches them. A variant that the
-- program never names is the constructor `other`, over an opaque type of the interface. Device and
-- scene identifiers are short texts that the program only compares: a number is the identifier's
-- rank in their order.
use devicectrl_server.Prelude.{ℕ, Bool}
use devicectrl_server.Deps.{Deps}

pub data SwitchPower : Type 0 where
  on off : SwitchPower

pub record SwitchState : Type 0 where
  pub power : SwitchPower

module _ ⦃d : Deps⦄ where
  open d use {NumericState, ColorLightState, BrightnessUpdate, FailureText}
  open d use {OtherState, OtherType, OtherNumeric, OtherUpdate, OtherMessage}

  pub record DimmableLightState : Type 0 where
    pub power : SwitchPower
    pub brightness : NumericState

  pub data DeviceState : Type 0 where
    unknown : DeviceState
    switch : SwitchState → DeviceState
    dimmable_light : DimmableLightState → DeviceState
    color_light : ColorLightState → DeviceState
    other : OtherState → DeviceState

  pub data DeviceType : Type 0 where
    switch : DeviceType
    dimmable_light : DeviceType
    other : OtherType → DeviceType

  pub data NumericUpdate : Type 0 where
    absolute : ℕ → NumericUpdate
    other : OtherNumeric → NumericUpdate

  pub data AttributeUpdate : Type 0 where
    power : SwitchPower → AttributeUpdate
    brightness : BrightnessUpdate → AttributeUpdate
    color_temp : NumericUpdate → AttributeUpdate
    other : OtherUpdate → AttributeUpdate

  pub record UpdateRequest : Type 0 where
    pub device_id : ℕ
    pub update : AttributeUpdate

  pub record UpdateCommand : Type 0 where
    pub device_id : ℕ
    pub update : AttributeUpdate

  pub record UpdateNotification : Type 0 where
    pub device_id : ℕ
    pub reachable : Bool
    pub new_state : DeviceState

  pub data ServerBoundSimpleMessage : Type 0 where
    identify : ℕ → ServerBoundSimpleMessage
    request_received : ServerBoundSimpleMessage
    failure : FailureText → ServerBoundSimpleMessage
    update_notification : UpdateNotification → ServerBoundSimpleMessage
    other : OtherMessage → ServerBoundSimpleMessage

  pub data DeviceBoundSimpleMessage : Type 0 where
    update_command : UpdateCommand → DeviceBoundSimpleMessage
    state_query : ℕ → DeviceBoundSimpleMessage
    other : OtherMessage → DeviceBoundSimpleMessage

  pub data ServerBoundKryptonMessage : Type 0 where
    identify : ℕ → ServerBoundKryptonMessage
    request_received : ServerBoundKryptonMessage
    failure : FailureText → ServerBoundKryptonMessage
    update_notification : UpdateNotification → ServerBoundKryptonMessage
    other : OtherMessage → ServerBoundKryptonMessage

  pub data DeviceBoundKryptonMessage : Type 0 where
    update_command : UpdateCommand → DeviceBoundKryptonMessage
    state_query : ℕ → DeviceBoundKryptonMessage
    other : OtherMessage → DeviceBoundKryptonMessage
