-- ===== src/Keysyms/Classes.antt =====
-- The tests for classes of symbols in keysyms/keysyms.c.
use xcb_util.Prelude.{ℕ, Bool, ◌||◌, ◌==◌}
use xcb_util.Keysyms.Case.{between}

-- The constants of X11/keysymdef.h that the tests name.
pub record Keys : Type 0 where
  pub kp_space : ℕ
  pub kp_equal : ℕ
  pub kp_f1 : ℕ
  pub kp_f4 : ℕ
  pub home : ℕ
  pub select : ℕ
  pub f1 : ℕ
  pub f35 : ℕ
  pub break : ℕ
  pub shift_l : ℕ
  pub hyper_r : ℕ
  pub iso_lock : ℕ
  pub iso_last_group_lock : ℕ
  pub mode_switch : ℕ
  pub num_lock : ℕ

unfoldable pub is_private_keypad_key : ℕ → Bool
is_private_keypad_key keysym = between keysym 0x1100_0000 0x1100_ffff

module _ (k : Keys) where
  unfoldable pub is_keypad_key : ℕ → Bool
  is_keypad_key keysym = between keysym k.kp_space k.kp_equal

  unfoldable pub is_cursor_key : ℕ → Bool
  is_cursor_key keysym = between keysym k.home k.select

  unfoldable pub is_pf_key : ℕ → Bool
  is_pf_key keysym = between keysym k.kp_f1 k.kp_f4

  unfoldable pub is_function_key : ℕ → Bool
  is_function_key keysym = between keysym k.f1 k.f35

  unfoldable pub is_misc_function_key : ℕ → Bool
  is_misc_function_key keysym = between keysym k.select k.break

  unfoldable pub is_modifier_key : ℕ → Bool
  is_modifier_key keysym =
      between keysym k.shift_l k.hyper_r
      || (between keysym k.iso_lock k.iso_last_group_lock
          || (keysym == k.mode_switch || keysym == k.num_lock))
