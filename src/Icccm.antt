-- ===== src/Icccm.antt =====
-- icccm/icccm.c: the properties by which clients and window managers speak to each other. The
-- children follow its parts.
pub mod Text
pub mod Server
pub mod SizeHints
pub mod WmHints
use xcb_util.Prelude.{
  ℕ, suc, ◌+◌, ◌-◌, ◌*◌, ◌/◌, ◌%◌, ◌^◌, List, [], ◌∷◌, Bool, ◌==◌, if◌then◌else◌, Outcome, done,
  fault, ◌>>=◌,
}

-- The atoms of atom/atomlist.m4, numbered from 1 in its order.
abbrev pub atom_atom : ℕ
atom_atom = 4

abbrev pub string_atom : ℕ
string_atom = 31

abbrev pub window_atom : ℕ
window_atom = 33

abbrev pub wm_hints_atom : ℕ
wm_hints_atom = 35

abbrev pub wm_client_machine_atom : ℕ
wm_client_machine_atom = 36

abbrev pub wm_icon_name_atom : ℕ
wm_icon_name_atom = 37

abbrev pub wm_name_atom : ℕ
wm_name_atom = 39

abbrev pub wm_normal_hints_atom : ℕ
wm_normal_hints_atom = 40

abbrev pub wm_size_hints_atom : ℕ
wm_size_hints_atom = 41

abbrev pub wm_class_atom : ℕ
wm_class_atom = 67

abbrev pub wm_transient_for_atom : ℕ
wm_transient_for_atom = 68

-- `XCB_PROP_MODE_REPLACE` and `UINT_MAX`
abbrev pub mode_replace : ℕ
mode_replace = 0

abbrev pub uint_max : ℕ
uint_max = 2 ^ 32 - 1

-- `strlen`: it reads past the memory if there is no null character.
unfoldable pub strlen : List ℕ → Outcome ℕ
strlen [] = fault
strlen (c ∷ cs) =
    let rest : Outcome ℕ = (do n ← strlen cs; done (suc n)) in if c == 0 then done 0 else rest
