-- ===== src/Go/Files.antt =====
-- os.ReadFile: why it fails. It is a function from paths to contents or such an error.
use goxo.Base.Text.{Str}

-- A file that is not there, or another reason.
pub data FileError : Type 0 where
  not_exist : FileError
  unreadable : Str → FileError
