-- ===== src/Relay/Identity/ImagePath.antt =====
-- The paths that `valid_image_path` of relay/src/lib.rs accepts.
use context_guardian.Prelude.{String, ◌+s◌}

-- The path of an image: its directory, the file's digest and extension, and what follows the name.
abbrev pub image_path : String → String → String → String
image_path digest extension rest = "/image/" +s ((digest +s String.◌∷◌ "." extension) +s rest)
