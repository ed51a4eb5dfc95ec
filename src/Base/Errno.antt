-- ===== src/Base/Errno.antt =====
-- The codes of errno.h that the source names, as Linux numbers them. Zero is success.
use Prim.Native.Nat.{ℕ}

abbrev pub enoent : ℕ
enoent = 2

abbrev pub eio : ℕ
eio = 5

abbrev pub eacces : ℕ
eacces = 13

abbrev pub ebusy : ℕ
ebusy = 16

abbrev pub enotdir : ℕ
enotdir = 20

abbrev pub eisdir : ℕ
eisdir = 21

abbrev pub erofs : ℕ
erofs = 30
