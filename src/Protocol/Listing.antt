-- ===== src/Protocol/Listing.antt =====
-- internal/protocol/listing.go: the rows of a directory listing.
use makera_cnc_controller.Base.{ℕ, Bool}
use makera_cnc_controller.Base.Text.{Text}

-- A time that cannot be parsed is 0.
pub record DirEntry : Type 0 where
  pub name : Text
  pub is_dir : Bool
  pub size : ℕ
  pub mtime : ℕ
