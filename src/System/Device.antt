-- ===== src/System/Device.antt =====
-- The fields of Platform of flint/src/platform/Platform.h, and what their setters tell the hardware.
use flingd_cc.Base.{String, Bool, true, false, List, ◌∷◌, not, if◌then◌else◌}
use flingd_cc.Base.Machine.{Cmd, ok}
use Prim.Native.String.{◌++◌ as ◌&◌}

pub data DeviceCall (D : Type 0) : Type 0 where
  on_set_volume : D → DeviceCall D
  on_set_muted : Bool → DeviceCall D

-- `calls` is newest first.
pub record Device (D : Type 0) : Type 0 where
  pub muted : Bool
  pub volume : D
  pub device_name : String
  pub model_name : String
  pub calls : List (DeviceCall D)

abbrev pub Do : Type 0 → Type 0
Do D = Cmd (Device D) (Unit {0})

abbrev pub same_flag : Bool → Bool → Bool
same_flag true b = b
same_flag false b = not b

module _ {D : Type 0} where
  -- Platform::Platform, which leaves the other fields as they are; `prefix` is the start of the UUID
  unfoldable pub new_platform : String → Device D → Device D
  new_platform prefix s = record s {
    model_name = "Matchstick";
    device_name = "Matchstick" & prefix;
  }

  unfoldable pub set_device_name : String → Do D
  set_device_name t s = ok tt (record s { device_name = t })

  unfoldable pub set_model_name : String → Do D
  set_model_name t s = ok tt (record s { model_name = t })

  unfoldable pub set_muted : Bool → Do D
  set_muted b s =
      if same_flag s.muted b
      then ok tt s
      else ok tt (record s { muted = b; calls = on_set_muted b ∷ s.calls })

  -- `same` compares two floating-point numbers.
  unfoldable pub set_volume : (D → D → Bool) → D → Do D
  set_volume same x s =
      if same s.volume x
      then ok tt s
      else ok tt (record s { volume = x; calls = on_set_volume x ∷ s.calls })
