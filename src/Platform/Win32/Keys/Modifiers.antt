-- ===== src/Platform/Win32/Keys/Modifiers.antt =====
-- src/platform/win32_key.hpp: the modifiers of a captured key.
use mksync.Prelude.{ℕ, Bool, String, none, some}
use mksync.Core.KeyModifier
use mksync.Platform.KeyTable.{switch}
use mksync.Platform.Xcb.Events.{modifier_cases, add_if}

unfoldable pub key_modifier_for : ℕ → ℕ
unfolding switch
key_modifier_for key = elim (switch key modifier_cases) [
  | none ↦ KeyModifier.none
  | some modifier ↦ modifier
]

-- `down` tells of the name of a virtual key whether `GetAsyncKeyState` has it down.
unfoldable pub current_modifiers : (String → Bool) → ℕ
current_modifiers down =
    let ctrl =
      add_if (down "VK_RCONTROL") KeyModifier.right_ctrl
        (add_if (down "VK_LCONTROL") KeyModifier.left_ctrl KeyModifier.none) in
    let shift =
      add_if (down "VK_RSHIFT") KeyModifier.right_shift
        (add_if (down "VK_LSHIFT") KeyModifier.left_shift ctrl) in
    let alt =
      add_if (down "VK_RMENU") KeyModifier.right_alt
        (add_if (down "VK_LMENU") KeyModifier.left_alt shift) in
    add_if (down "VK_RWIN") KeyModifier.right_meta
      (add_if (down "VK_LWIN") KeyModifier.left_meta alt)
