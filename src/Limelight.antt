-- ===== src/Limelight.antt =====
-- The interface of moonlight-common-c (Limelight.h, a git submodule): its constants are parameters
-- of the model, and the calls that a handler makes of it are values, in the order of the calls.
use moonlight_embedded_crash.Prelude.{ℕ}
use moonlight_embedded_crash.Prelude.Int.{ℤ}
use moonlight_embedded_crash.Prelude.Bits.{Bits}

-- Masks are bit patterns of an int.
pub record Limelight : Type 0 where
  pub modifier_shift : Bits
  pub modifier_alt : Bits
  pub modifier_ctrl : Bits
  pub button_left : ℕ
  pub button_middle : ℕ
  pub button_right : ℕ
  pub a_flag : Bits
  pub b_flag : Bits
  pub x_flag : Bits
  pub y_flag : Bits
  pub up_flag : Bits
  pub down_flag : Bits
  pub left_flag : Bits
  pub right_flag : Bits
  pub ls_clk_flag : Bits
  pub rs_clk_flag : Bits
  pub lb_flag : Bits
  pub rb_flag : Bits
  pub play_flag : Bits
  pub back_flag : Bits
  pub special_flag : Bits

-- KEY_ACTION_DOWN or KEY_ACTION_UP, BUTTON_ACTION_PRESS or BUTTON_ACTION_RELEASE.
pub data Action : Type 0 where
  down up : Action

pub record ControllerState : Type 0 where
  pub button_flags : Bits
  pub left_trigger : ℕ
  pub right_trigger : ℕ
  pub left_stick_x : ℤ
  pub left_stick_y : ℤ
  pub right_stick_x : ℤ
  pub right_stick_y : ℤ

-- A call of LiSendMouseMoveEvent, LiSendScrollEvent, LiSendMouseButtonEvent,
-- LiSendKeyboardEvent or LiSendMultiControllerEvent, with its arguments.
pub data Sent : Type 0 where
  mouse_move : ℤ → ℤ → Sent
  scroll : ℤ → Sent
  mouse_button : Action → ℕ → Sent
  keyboard : ℤ → Action → Bits → Sent
  controller : ℤ → ControllerState → Sent
