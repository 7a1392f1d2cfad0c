-- ===== src/Platform/Xcb/Capture/Resources.antt =====
-- src/platform/xcb.cpp, XcbInputCapture: the hidden cursor and the window of the grab.
use mksync.Prelude.{
  ℕ, suc, ◌-◌, ◌==◌, List, [], ◌∷◌, none, some, Result, ok, err, ◌>>◌, if◌then◌else◌,
}
use mksync.Platform.Xcb.Connection.{Errc, check}
use mksync.Platform.Xcb.Capture.{Capture, Answers}

unfoldable pub remove : ℕ → List ℕ → List ℕ
remove i [] = []
remove i (j ∷ rest) = let rest' = remove i rest in if i == j then rest' else j ∷ rest'

abbrev free_pixmap : Capture → Capture
free_pixmap c = record c { held = record c.held { pixmaps = c.held.pixmaps - 1 } }

abbrev free_gc : Capture → Capture
free_gc c = record c { held = record c.held { gcs = c.held.gcs - 1 } }

-- The part of `ensureHiddenCursor` once there is a pixmap and a graphic context, which end freed.
unfoldable pub fill_and_create_cursor : Answers → Capture → Capture × Result Errc ℕ
unfolding check
fill_and_create_cursor a c = elim (check a.fills >> check a.creates_cursor) [
  | err e ↦ (c, err e)
  | ok u ↦ (
    record c {
      hidden_cursor = some a.cursor_id;
      held = record c.held { cursors = a.cursor_id ∷ c.held.cursors };
    },
    ok a.cursor_id,
  )
]

-- Each step's server state is written out: a pixmap is created, then a graphic context; both are
-- freed whether or not the cursor could be created.
unfoldable pub ensure_hidden_cursor : Answers → Capture → Capture × Result Errc ℕ
unfolding fill_and_create_cursor check
ensure_hidden_cursor a c = elim c.hidden_cursor [
  | some id ↦ (c, ok id)
  | none ↦ elim (check a.creates_pixmap) [
    | err e ↦ (c, err e)
    | ok u ↦
        let with_pixmap = record c { held = record c.held { pixmaps = suc c.held.pixmaps } } in
        elim (check a.creates_gc) [
          | err e ↦ (free_pixmap with_pixmap, err e)
          | ok u' ↦
              let with_gc = record with_pixmap {
                held = record with_pixmap.held { gcs = suc with_pixmap.held.gcs };
              } in
              let (created, r) = fill_and_create_cursor a with_gc in
              (free_pixmap (free_gc created), r)
        ]
  ]
]

unfoldable pub destroy_grab_window : Capture → Capture
unfolding remove
destroy_grab_window c = elim c.grab_window [
  | none ↦ c
  | some id ↦ record c {
    grab_window = none;
    held = record c.held { windows = remove id c.held.windows };
  }
]

unfoldable pub ensure_grab_window : Answers → Capture → Capture × Result Errc ℕ
unfolding check remove
ensure_grab_window a c = elim c.grab_window [
  | some id ↦ (c, ok id)
  | none ↦ elim (check a.creates_window) [
    | err e ↦ (c, err e)
    | ok u ↦
        let held = record c.held { windows = a.window_id ∷ c.held.windows } in
        elim (check a.maps_window) [
          | err e ↦
              (record c { held = record held { windows = remove a.window_id held.windows } }, err e)
          | ok u' ↦ (record c { grab_window = some a.window_id; held = held }, ok a.window_id)
        ]
  ]
]

unfoldable pub free_hidden_cursor : Capture → Capture
unfolding remove
free_hidden_cursor c = elim c.hidden_cursor [
  | none ↦ c
  | some id ↦ record c {
    hidden_cursor = none;
    held = record c.held { cursors = remove id c.held.cursors };
  }
]
