-- ===== src/Filepolicy.antt =====
-- internal/filepolicy/junk.go: the paths that file operations may name.
-- path.Clean and path.Base belong to Go's library and are parameters.
use makera_cnc_controller.Base.{Bool, true, not, ◌&&◌, List, [], ◌∷◌, ◌==◌, if◌then◌else◌, any}
use makera_cnc_controller.Base.Text.{Text, codes, text_eq, has_prefix}
use mathlib.Core.List.{reverse}

abbrev pub junk_names : List Text
junk_names =
    codes ".DS_Store"
    ∷ codes ".localized"
    ∷ codes "Thumbs.db"
    ∷ codes "desktop.ini"
    ∷ codes ".fseventsd"
    ∷ codes ".Spotlight-V100"
    ∷ codes ".Trashes"
    ∷ codes ".TemporaryItems"
    ∷ codes ".apdisk"
    ∷ []

abbrev pub gcode_prefix : Text
gcode_prefix = codes "/sd/gcodes/"

-- strings.ReplaceAll(s, "\\", "/")
unfoldable pub forward_slashes : Text → Text
forward_slashes [] = []
forward_slashes (c ∷ s) = (if c == b'\\' then b'/' else c) ∷ forward_slashes s

strip_left : Text → Text
strip_left [] = []
strip_left (c ∷ s) = if c == b'/' then strip_left s else c ∷ s

-- strings.Trim(s, "/")
unfoldable pub trim_slashes : Text → Text
unfolding strip_left
trim_slashes s = reverse (strip_left (reverse (strip_left s)))

module _ (clean : Text → Text) (base : Text → Text) where
  unfoldable pub is_junk : Text → Bool
  is_junk name =
      let b = base (trim_slashes (clean (b'/' ∷ name))) in
      if any (text_eq b) junk_names then true else has_prefix (codes "._") b

  unfoldable pub is_gcode_path : Text → Bool
  unfolding is_junk
  is_gcode_path name =
      let slashed = forward_slashes name in
      let cleaned = clean slashed in
      text_eq cleaned slashed && has_prefix gcode_prefix cleaned && not (is_junk cleaned)
