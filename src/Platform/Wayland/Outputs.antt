-- ===== src/Platform/Wayland/Outputs.antt =====
-- src/platform/wayland.cpp, WaylandPlatform: the outputs of the compositor, the screens that they
-- make, and where a pixel of a screen lies in the extent of all of them.

use mksync.Prelude.{
  ℕ, suc, ◌/◌, ◌%◌, ◌==◌, ℤ, pos, negsuc, pos_part, ◌-ℤ◌, ltb_ℤ, max_ℤ, str_eq, String, Bool, true,
  false, ◌&&◌, List, [], ◌∷◌, Option, none, some, if◌then◌else◌,
}
use Prim.Native.String.{◌++◌ as append}
use mksync.Core.Events.{ScreenInfo}

pub data Transform : Type 0 where
  normal rotated_90 rotated_180 rotated_270 flipped flipped_90 flipped_180 flipped_270 : Transform

pub record Output : Type 0 where
  pub registry_name : ℕ
  pub fallback_x : ℤ
  pub fallback_y : ℤ
  pub physical_width_mm : ℤ
  pub physical_height_mm : ℤ
  pub mode_width : ℤ
  pub mode_height : ℤ
  pub scale : ℤ
  pub transform : Transform
  pub logical_x : ℤ
  pub logical_y : ℤ
  pub logical_width : ℤ
  pub logical_height : ℤ
  pub has_logical_position : Bool
  pub has_logical_size : Bool
  pub make : String
  pub model : String
  pub name : String
  pub description : String

-- A new output global, once it is bound and listened to.
abbrev pub new_output : ℕ → Output
new_output registry_name = record {
  registry_name = registry_name;
  fallback_x = pos 0;
  fallback_y = pos 0;
  physical_width_mm = pos 0;
  physical_height_mm = pos 0;
  mode_width = pos 0;
  mode_height = pos 0;
  scale = pos 1;
  transform = normal;
  logical_x = pos 0;
  logical_y = pos 0;
  logical_width = pos 0;
  logical_height = pos 0;
  has_logical_position = false;
  has_logical_size = false;
  make = "";
  model = "";
  name = "";
  description = "";
}

unfoldable pub registry_global_remove : ℕ → List Output → List Output
registry_global_remove name [] = []
registry_global_remove name (o ∷ rest) =
    let later = registry_global_remove name rest in
    if o.registry_name == name then rest else o ∷ later

-- A text that may be null.
abbrev or_empty : Option String → String
or_empty none = ""
or_empty (some text) = text

unfoldable pub output_geometry :
    ℤ → ℤ → ℤ → ℤ → Option String → Option String → Transform → Output → Output
output_geometry x y physical_width physical_height make model transform o = record o {
  fallback_x = x;
  fallback_y = y;
  physical_width_mm = physical_width;
  physical_height_mm = physical_height;
  make = or_empty make;
  model = or_empty model;
  transform = transform;
}

-- The flag WL_OUTPUT_MODE_CURRENT is the first bit.
unfoldable pub output_mode : ℕ → ℤ → ℤ → Output → Output
output_mode flags width height o =
    if flags % 2 == 0 then o else record o { mode_width = width; mode_height = height }

unfoldable pub output_scale : ℤ → Output → Output
output_scale scale o = record o { scale = max_ℤ (pos 1) scale }

unfoldable pub output_name : Option String → Output → Output
output_name name o = record o { name = or_empty name }

unfoldable pub output_description : Option String → Output → Output
output_description description o = record o { description = or_empty description }

unfoldable pub xdg_logical_position : ℤ → ℤ → Output → Output
xdg_logical_position x y o = record o { logical_x = x; logical_y = y; has_logical_position = true }

unfoldable pub xdg_logical_size : ℤ → ℤ → Output → Output
xdg_logical_size width height o = record o {
  logical_width = width;
  logical_height = height;
  has_logical_size = ltb_ℤ (pos 0) width && ltb_ℤ (pos 0) height;
}

unfoldable pub xdg_name : Option String → Output → Output
xdg_name name o = if str_eq o.name "" then record o { name = or_empty name } else o

unfoldable pub xdg_description : Option String → Output → Output
xdg_description description o =
    if str_eq o.description "" then record o { description = or_empty description } else o

abbrev pub is_rotated : Transform → Bool
is_rotated rotated_90 = true
is_rotated rotated_270 = true
is_rotated flipped_90 = true
is_rotated flipped_270 = true
is_rotated normal = false
is_rotated rotated_180 = false
is_rotated flipped = false
is_rotated flipped_180 = false

-- `a / b` on integers rounds towards 0; the divisor here is at least 1.
abbrev pub div_ℤ : ℤ → ℕ → ℤ
div_ℤ (pos n) d = pos (n / d)
div_ℤ (negsuc n) d = pos 0 -ℤ pos (suc n / d)

-- The size: the logical one, or that of the mode, turned and divided by the scale.
unfoldable pub size_of : Output → ℤ × ℤ
size_of o =
    let rotated = is_rotated o.transform in
    let scale = pos_part (max_ℤ (pos 1) o.scale) in
    if o.has_logical_size then (o.logical_width, o.logical_height) else (
      div_ℤ (if rotated then o.mode_height else o.mode_width) scale,
      div_ℤ (if rotated then o.mode_width else o.mode_height) scale,
    )

unfoldable pub name_of : (ℕ → String) → Output → ℕ → String
name_of format o index =
    let made =
      if str_eq o.model ""
      then o.make
      else if str_eq o.make ""
      then o.model
      else append o.make (append " " o.model) in
    let name = if str_eq o.name "" then made else o.name in
    if str_eq name "" then format index else name

-- `format` gives the text `wayland-output-…`, and `lround_dpi` the rounded density.
unfoldable pub screen_info : (ℕ → String) → (ℤ → ℤ → ℤ) → Output → ℕ → ScreenInfo
unfolding size_of name_of
screen_info format lround_dpi o index =
    let (width, height) = size_of o in
    record {
      x = if o.has_logical_position then o.logical_x else o.fallback_x;
      y = if o.has_logical_position then o.logical_y else o.fallback_y;
      width = max_ℤ (pos 1) width;
      height = max_ℤ (pos 1) height;
      dpi =
          if ltb_ℤ (pos 0) o.physical_width_mm && ltb_ℤ (pos 0) o.mode_width
          then lround_dpi o.mode_width o.physical_width_mm
          else pos 72;
      name = name_of format o index;
      primary = index == 0;
    }

unfoldable pub screens_from : (ℕ → String) → (ℤ → ℤ → ℤ) → List Output → ℕ → List ScreenInfo
unfolding screen_info
screens_from format lround_dpi [] index = []
screens_from format lround_dpi (o ∷ rest) index =
    screen_info format lround_dpi o index ∷ screens_from format lround_dpi rest (suc index)
